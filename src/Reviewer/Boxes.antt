-- ===== src/Reviewer/Boxes.antt =====
-- What a clean run of the last parts of verify_trelyan.py says: the boxes, one record, and the attempt
-- to load the signer.
use trelyan_falcon_inscripti.Prelude.{
  ℕ, zero, suc, ◌+◌, ◌≤◌, ◌≡◌, ◌≢◌, refl, ap, arith, true, ◌&&◌, Option, none, some, List, [], ◌∷◌,
  length, get_elem?, take, drop, ltb, leb, ◌==◌, ==_iff, leb→le, le→leb,
}
use trelyan_falcon_inscripti.Prelude.Bytes.{Bytes, All, bytes_eq_iff, from_bytes, to_bytes}
use trelyan_falcon_inscripti.Prelude.Text.{splitlines}
use trelyan_falcon_inscripti.Prelude.Result.{to_option}
use trelyan_falcon_inscripti.Message.{
  int, nonneg, domain_tag, build_message, key_prefix_pubkey, key_prefix_inscription,
}
use trelyan_falcon_inscripti.Message.Layout.{layout, take-app, take-hash, drop-hash}
use trelyan_falcon_inscripti.Checks.Teal.{first_line}
use trelyan_falcon_inscripti.Reviewer.{
  Tally, Outside, app_id, recorded_hash, testnet_genesis, with_prefix, layout_holds, check_key,
  check_keys, check_some, check_boxes, check_record, probe_signer,
}
use trelyan_falcon_inscripti.Reviewer.Clean.{
  Clean, growing, Clean-check, Clean-pure, checked, check-then, check-then_parts, answer-then,
  answer-then_parts, part-then, Clean-parts, unclean,
}
use trelyan_falcon_inscripti.Reviewer.Parts.{
  IsKeyBox, IsRecordBox, Grows-check_some, Grows-check_key, Grows-check_keys, built_message,
  message_built,
}

length-take-drop :
    {A : Type 0} (m n : ℕ) (xs : List A) → m + n ≤ length xs → length (take n (drop m xs)) ≡ n
length-take-drop zero zero xs h = refl
length-take-drop zero (suc n) [] h = absurd (omega arith)
length-take-drop zero (suc n) (x ∷ xs) h = ap suc (length-take-drop zero n xs (omega arith))
length-take-drop (suc m) n [] h = let e : n ≡ 0 = omega arith in absurd (omega arith)
length-take-drop (suc m) n (x ∷ xs) h = length-take-drop m n xs (omega arith)

-- The layout test accepts the message of any cell, whichever cell the record is about, if the hash has 32 bytes.
pub layout_holds-layout :
    (cell : ℕ) (art : Bytes)
    → length art ≡ 32
    → layout_holds art (layout app_id cell art testnet_genesis) ≡ true
unfolding layout_holds
layout_holds-layout cell art h = ground (
  arith,
  (bytes_eq_iff (take 22 (layout app_id cell art testnet_genesis)) domain_tag).1 refl,
  (bytes_eq_iff (take 8 (drop 22 (layout app_id cell art testnet_genesis))) (to_bytes 8 app_id)).1
      (take-app app_id cell art testnet_genesis),
  (bytes_eq_iff (take 32 (drop 38 (layout app_id cell art testnet_genesis))) art).1
      (take-hash app_id cell art testnet_genesis h),
  (bytes_eq_iff (drop 70 (layout app_id cell art testnet_genesis)) testnet_genesis).1
      (drop-hash app_id cell art testnet_genesis h),
)

module _ (outside : Outside) where
  check_key-IsKeyBox :
      (name : Bytes) (t : Tally) → Clean (check_key outside name) t tt → IsKeyBox outside name
  unfolding check_key
  check_key-IsKeyBox name t c =
      let (pk, e1, t1, r1) = answer-then_parts tt (outside.box name) _ t (λ a. search growing) c in
      let (header, e2, t2, r2) =
        answer-then_parts tt (get_elem? pk 0) _ t1 (λ a. search growing) r1 in
      let e3 : (length pk == 1793 && header == 0x0A) ≡ true = checked t2 _ tt r2 in
      record {
        value = pk;
        served = e1;
        size = ground arith;
        header = let h : header ≡ 0x0A = ground arith in rw (← h) e2;
      }

  Clean-check_key :
      (name : Bytes) → IsKeyBox outside name → (t : Tally) → Clean (check_key outside name) t tt
  unfolding check_key
  Clean-check_key name k =
      let size = k.size in
      answer-then tt (outside.box name) _ k.value k.served
        (answer-then tt (get_elem? k.value 0) _ 0x0A k.header (λ u. Clean-check u _ (ground arith)))

  check_keys-All :
      (names : List Bytes) (t : Tally)
      → Clean (check_keys outside names) t tt
      → All (IsKeyBox outside) names
  unfolding check_keys
  check_keys-All [] t c = tt
  check_keys-All (name ∷ names) t c =
      let (u, d, r) =
        Clean-parts (check_key outside name) _ t tt (Grows-check_key outside name)
          (λ _. Grows-check_keys outside names) c in
      (check_key-IsKeyBox name t d, check_keys-All names _ r)

  Clean-check_keys :
      (names : List Bytes)
      → All (IsKeyBox outside) names
      → (t : Tally) → Clean (check_keys outside names) t tt
  unfolding check_keys
  Clean-check_keys [] a = λ t. Clean-pure t tt
  Clean-check_keys (name ∷ names) a =
      part-then tt (check_key outside name) _ tt (Clean-check_key name a.0)
        (Clean-check_keys names a.1)

  -- The node lists boxes, a key box among them, the first three key boxes hold keys, and these are the names of the record boxes.
  pub record HasKeys (iss : List Bytes) : Type 0 where
    pub names : List Bytes
    pub listed : outside.boxes ≡ some names
    pub registered : with_prefix key_prefix_pubkey names ≢ []
    pub keys : All (IsKeyBox outside) (take 3 (with_prefix key_prefix_pubkey names))
    pub records : iss ≡ with_prefix key_prefix_inscription names

  check_some-nonempty : (ks : List Bytes) (t : Tally) → Clean (check_some ks) t tt → ks ≢ []
  check_some-nonempty [] t c = absurd (unclean t tt c)
  check_some-nonempty (k ∷ ks) t c = λ z. cc

  Clean-check_some : (ks : List Bytes) → ks ≢ [] → (t : Tally) → Clean (check_some ks) t tt
  Clean-check_some [] n t = absurd (n refl)
  Clean-check_some (k ∷ ks) n t = Clean-pure t tt

  some_names :
      (names : List Bytes) → with_prefix key_prefix_pubkey names ≢ [] → ltb 0 (length names) ≡ true
  unfolding with_prefix
  some_names [] n = absurd (n refl)
  some_names (name ∷ names) n = ground arith

  pub check_boxes-HasKeys :
      (iss : List Bytes) (t : Tally) → Clean (check_boxes outside) t iss → HasKeys iss
  unfolding check_boxes
  check_boxes-HasKeys iss t c =
      let (names, e1, t1, r1) =
        answer-then_parts iss outside.boxes _ t
          (λ a. search (growing, Grows-check_some, Grows-check_keys) depth 9) c in
      let ks = with_prefix key_prefix_pubkey names in
      let (e2, t2, r2) =
        check-then_parts iss (ltb 0 (length names)) _ t1
          (search (growing, Grows-check_some, Grows-check_keys) depth 9) r1 in
      let (u3, c3, r3) =
        Clean-parts (check_some ks) _ t2 iss (Grows-check_some ks)
          (λ _. search (growing, Grows-check_keys) depth 9) r2 in
      let (u4, c4, r4) =
        Clean-parts (check_keys outside (take 3 ks)) _ _ iss (Grows-check_keys outside (take 3 ks))
          (λ _. search growing) r3 in
      let last = r4.returns in
      record {
        names = names;
        listed = e1;
        registered = check_some-nonempty ks t2 c3;
        keys = check_keys-All (take 3 ks) _ c4;
        records = cc;
      }

  pub Clean-check_boxes :
      (iss : List Bytes) → HasKeys iss → (t : Tally) → Clean (check_boxes outside) t iss
  unfolding check_boxes
  Clean-check_boxes iss h =
      let ks = with_prefix key_prefix_pubkey h.names in
      rw h.records (
        answer-then _ outside.boxes _ h.names h.listed (
          check-then _ _ _ (some_names h.names h.registered) (
            part-then _ (check_some ks) _ tt (Clean-check_some ks h.registered) (
              part-then _ (check_keys outside (take 3 ks)) _ tt
                (Clean-check_keys (take 3 ks) h.keys) (λ u. Clean-pure u _)))))

  -- The first record box, if there is one.
  abbrev pub HasRecord : List Bytes → Type 0
  HasRecord [] = Unit {0}
  HasRecord (name ∷ names) = IsRecordBox outside name

  pub check_record-HasRecord :
      (names : List Bytes) (t : Tally) (m : Option Bytes)
      → Clean (check_record outside names) t m
      → HasRecord names
  unfolding check_record
  check_record-HasRecord [] t m c = tt
  check_record-HasRecord (name ∷ names) t m c =
      let cell = from_bytes (drop 2 name) in
      let (rec, e1, t1, r1) =
        answer-then_parts m (outside.box name) _ t (λ a. search growing depth 9) c in
      let (e2, t2, r2) =
        check-then_parts m (leb 83 (length rec)) _ t1 (search growing depth 9) r1 in
      let (version, e3, t3, r3) =
        answer-then_parts m (get_elem? rec 0) _ t2 (λ a. search growing depth 9) r2 in
      let (e4, t4, r4) = check-then_parts m (version == 1) _ t3 (search growing depth 9) r3 in
      let (e5, t5, r5) =
        check-then_parts m (from_bytes (take 8 (drop 1 rec)) == cell) _ t4 (search growing depth 9)
          r4 in
      let (message, e6, t6, r6) =
        answer-then_parts m
          (to_option (
            build_message (int (nonneg app_id)) (int (nonneg cell)) (take 32 (drop 9 rec))
              testnet_genesis))
          _ t5 (λ a. search growing depth 9) r5 in
      record {
        value = rec;
        served = e1;
        size = leb→le 83 (length rec) e2;
        version = let v : version ≡ 1 = (==_iff version 1).0 e4 in rw (← v) e3;
        cell = (==_iff (from_bytes (take 8 (drop 1 rec))) cell).0 e5;
        fits = (built_message app_id cell (take 32 (drop 9 rec)) testnet_genesis message e6).0;
      }

  -- The message that the fifth part leaves.
  abbrev pub live_message : (names : List Bytes) → HasRecord names → Option Bytes
  live_message [] h = none
  live_message (name ∷ names) h =
      some (layout app_id (from_bytes (drop 2 name)) (recorded_hash h.value) testnet_genesis)

  pub Clean-check_record :
      (names : List Bytes) (h : HasRecord names) (t : Tally)
      → Clean (check_record outside names) t (live_message names h)
  unfolding check_record
  Clean-check_record [] h = λ t. Clean-pure t none
  Clean-check_record (name ∷ names) h =
      let cell = from_bytes (drop 2 name) in
      let art = take 32 (drop 9 h.value) in
      let size = h.size in
      let live : Option Bytes = live_message (name ∷ names) h in
      let length-art : length art ≡ 32 = length-take-drop 9 32 h.value (omega (arith, size)) in
      answer-then live (outside.box name) _ h.value h.served (
        check-then live _ _ (le→leb 83 (length h.value) size) (
          answer-then live _ _ 1 h.version (
            check-then live _ _ refl (
              check-then live _ _ ((==_iff (from_bytes (take 8 (drop 1 h.value))) cell).1 h.cell) (
                answer-then live _ _ (layout app_id cell art testnet_genesis)
                  (message_built app_id cell art testnet_genesis (omega arith) h.fits length-art
                    refl)
                  (check-then live _ _ (layout_holds-layout cell art length-art)
                    (λ u. Clean-pure u live)))))))

-- Loading the signer works, or raises an exception whose text has a first line.
abbrev pub IsTold : Option Bytes → Type 0
IsTold none = Unit {0}
IsTold (some text) = (line : Bytes) × (first_line (splitlines text) ≡ some line)

pub probe_signer-IsTold : (o : Option Bytes) (t : Tally) → Clean (probe_signer o) t tt → IsTold o
unfolding probe_signer
probe_signer-IsTold none t c = tt
probe_signer-IsTold (some text) t c =
    let (line, e, u, r) =
      answer-then_parts tt (first_line (splitlines text)) _ t (λ a. search growing) c in
    (line, e)

pub Clean-probe_signer : (o : Option Bytes) → IsTold o → (t : Tally) → Clean (probe_signer o) t tt
unfolding probe_signer
Clean-probe_signer none h = λ t. Clean-pure t tt
Clean-probe_signer (some text) h =
    answer-then tt (first_line (splitlines text)) _ h.0 h.1 (λ u. Clean-pure u tt)
