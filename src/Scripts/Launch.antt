-- ===== src/Scripts/Launch.antt =====
-- When the wrappers run the deployment.
use trelyan_falcon_inscripti.Prelude.{
  ℕ, zero, suc, ◌+◌, ◌≤◌, ◌<◌, ◌≡◌, ◌↔◌, Bool, true, none, some, [], ◌∷◌, arith, leb, ◌==◌,
  Bool-cases, Option-cases, inl, inr,
}
use trelyan_falcon_inscripti.Prelude.Bytes.{Bytes}
use trelyan_falcon_inscripti.Scripts.{
  Computer, runs, find_falcon_lib, needed_microalgo, poll_limit, is_funded, fresh_main,
}

-- One of `n` answers from the i-th on is enough.
abbrev Funded : (ℕ → ℕ) → ℕ → ℕ → Type 0
Funded balance i n = (k : ℕ) × (i ≤ k) × (k < i + n) × (2000000 ≤ balance k)

is_funded-Funded : (balance : ℕ → ℕ) (i n : ℕ) → is_funded balance i n ≡ true → Funded balance i n
unfolding is_funded
is_funded-Funded balance i zero e = cc
is_funded-Funded balance i (suc n) e = elim (Bool-cases (leb needed_microalgo (balance i))) [
  | inl enough ↦ (i, omega arith, omega arith, ground arith)
  | inr short ↦
      let later : is_funded balance (i + 1) n ≡ true = ground arith in
      let (k, from, below, enough) = is_funded-Funded balance (i + 1) n later in
      (k, omega arith, omega arith, enough)
]

Funded-is_funded : (balance : ℕ → ℕ) (i n : ℕ) → Funded balance i n → is_funded balance i n ≡ true
unfolding is_funded
Funded-is_funded balance i zero (k, from, below, enough) = absurd (omega arith)
Funded-is_funded balance i (suc n) (k, from, below, enough) =
    elim (Bool-cases (leb needed_microalgo (balance i))) [
      | inl now ↦ ground arith
      | inr short ↦ elim (Bool-cases (k == i)) [
        | inl same ↦ absurd (ground arith)
        | inr differ ↦
            let later = Funded-is_funded balance (i + 1) n (k, ground arith, omega arith, enough) in
            ground (arith, later)
      ]
    ]

module _ (m : Computer) (has_algosdk : Bool) (seed : Bytes) (balance : ℕ → ℕ) (c : ℕ)
    (lib : Bytes) where
  -- What the wrapper for a fresh account waits for.
  pub record CanRun : Type 0 where
    pub script : m.deploy_is_file ≡ true
    pub library : find_falcon_lib m ≡ some (c ∷ lib)
    pub algosdk : has_algosdk ≡ true
    pub funded : (k : ℕ) × (k < 120) × (2000000 ≤ balance k)

  running-CanRun :
      (path : Bytes)
      → find_falcon_lib m ≡ some path
      → fresh_main m has_algosdk seed balance ≡ runs seed (c ∷ lib)
      → CanRun
  unfolding fresh_main
  running-CanRun [] found e = absurd (ground arith)
  running-CanRun (d ∷ rest) found e =
      let polled : is_funded balance 0 poll_limit ≡ true = ground arith in
      let (k, from, below, enough) = is_funded-Funded balance 0 poll_limit polled in
      record {
        script = ground arith;
        library = ground arith;
        algosdk = ground arith;
        funded = (k, omega arith, enough);
      }

  not_found :
      {A : Type 0}
      → find_falcon_lib m ≡ none
      → fresh_main m has_algosdk seed balance ≡ runs seed (c ∷ lib)
      → A
  unfolding fresh_main
  not_found missing e = absurd (ground arith)

  CanRun-running : CanRun → fresh_main m has_algosdk seed balance ≡ runs seed (c ∷ lib)
  unfolding fresh_main
  CanRun-running r =
      let (k, below, enough) = r.funded in
      let polled = Funded-is_funded balance 0 poll_limit (k, omega arith, omega arith, enough) in
      ground (arith, r.script, r.library, r.algosdk, polled)

  -- deploy_testnet_fresh.py runs the deployment, with the new mnemonic and a library, exactly when
  -- the script is there, a library is named or found, py-algorand-sdk is installed, and one of the first 120
  -- answers of the node is a balance of 2 ALGO or more.
  pub fresh_main_runs_exactly :
      (fresh_main m has_algosdk seed balance ≡ runs seed (c ∷ lib)) ↔ CanRun
  fresh_main_runs_exactly = (forth, CanRun-running)
    where
      forth : fresh_main m has_algosdk seed balance ≡ runs seed (c ∷ lib) → CanRun
      forth e = elim (Option-cases (find_falcon_lib m)) [
        | inl missing ↦ not_found missing e
        | inr (path, found) ↦ running-CanRun path found e
      ]
