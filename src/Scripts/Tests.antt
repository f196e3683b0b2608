-- ===== src/Scripts/Tests.antt =====
-- Runs of the wrappers, and the theorem about them.
use trelyan_falcon_inscripti.Prelude.{
  ◌≡◌, ◌↔◌, List, refl, true, false, some, [], ◌∷◌, ◌*◌, ℕ, length, ◌==◌,
}
use trelyan_falcon_inscripti.Prelude.Text.{strip, lstrip, rstrip}
use trelyan_falcon_inscripti.Scripts.{
  Computer, exits, runs, find_falcon_lib, first_file, is_funded, fresh_main, count_words,
  secure_main, missing_of, missing_required, secret_main,
}
use trelyan_falcon_inscripti.Scripts.Launch.{CanRun, fresh_main_runs_exactly}

abbrev found_lib : List ℕ
found_lib =
    b'l' ∷ b'i' ∷ b'b' ∷ b'f' ∷ b'a' ∷ b'l' ∷ b'c' ∷ b'o' ∷ b'n' ∷ b'd' ∷ b'e' ∷ b't' ∷ b'1' ∷ b'0'
    ∷ b'2' ∷ b'4' ∷ b'.' ∷ b's' ∷ b'o' ∷ []

-- The second of the three files is there.
abbrev computer : Computer
computer = record {
  deploy_is_file = true;
  set_lib = some [];
  is_file = λ name. length name == 19;
  path_of = λ name. b'/' ∷ name;
}

-- 0.5 ALGO more with every answer
abbrev balance : ℕ → ℕ
balance i = i * 500000

three_words : secure_main computer (32 ∷ b'a' ∷ 32 ∷ b'b' ∷ 32 ∷ 32 ∷ b'c' ∷ 10 ∷ []) ≡ exits 2
unfolding secure_main find_falcon_lib first_file strip lstrip rstrip count_words
three_words = refl

counted : count_words false (32 ∷ b'a' ∷ 32 ∷ b'b' ∷ b'c' ∷ 32 ∷ 32 ∷ b'd' ∷ 10 ∷ []) ≡ 3
unfolding count_words
counted = refl

secret_missing : secret_main (λ name. 32 ∷ []) ≡ 1
unfolding secret_main missing_required missing_of strip lstrip rstrip
secret_missing = refl

secret_there : secret_main (λ name. b'a' ∷ []) ≡ 0
unfolding secret_main missing_required missing_of strip lstrip rstrip
secret_there = refl

poor : fresh_main computer true (b'w' ∷ []) (λ i. 1999999) ≡ exits 2
unfolding fresh_main find_falcon_lib first_file is_funded
poor = refl

rich : fresh_main computer true (b'w' ∷ []) balance ≡ runs (b'w' ∷ []) (b'/' ∷ found_lib)
unfolding fresh_main find_falcon_lib first_file is_funded
rich = refl

fresh_main_runs_exactly_example :
    (fresh_main computer true (b'w' ∷ []) balance ≡ runs (b'w' ∷ []) (b'/' ∷ found_lib))
    ↔ CanRun computer true (b'w' ∷ []) balance b'/' found_lib
fresh_main_runs_exactly_example =
    fresh_main_runs_exactly computer true (b'w' ∷ []) balance b'/' found_lib
