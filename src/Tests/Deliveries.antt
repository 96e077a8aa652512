-- ===== src/Tests/Deliveries.antt =====
-- The theorems on operations that run once, with a state that counts the mails sent.
use godown_rbac_system.Prelude.{
  ℕ, suc, true, false, ◌+◌, ◌<◌, String, List, [], ◌∷◌, Option, none, some, ◌≡◌, ◌≢◌, refl, leb,
  str_eq, eq_refl, eq_iff, arith, if◌then◌else◌,
}
use godown_rbac_system.World.{Result, ok}
use godown_rbac_system.Common.Idempotency.{ResultCache}

abbrev Results : Type 0
Results = List (String × Option String × ℕ)

abbrev get_result : String → ℕ → Results → Option String
get_result key now [] = none
get_result key now ((k, v, until) ∷ c) =
    if str_eq k key then if leb (suc now) until then v else none else get_result key now c

abbrev set_result : String → Option String → ℕ → ℕ → Results → Results
set_result key v timeout since c = (key, v, since + timeout) ∷ c

pub get_result-set_result_same :
    (key : String) (v : Option String) (timeout since now : ℕ) (c : Results)
    → now < since + timeout
    → get_result key now (set_result key v timeout since c) ≡ v
get_result-set_result_same key v timeout since now c alive = rw (eq_refl key) (ground arith)

pub get_result-set_result_other :
    (key other : String) (v : Option String) (timeout since now : ℕ) (c : Results)
    → str_eq key other ≡ false
    → get_result other now (set_result key v timeout since c) ≡ get_result other now c
get_result-set_result_other key other v timeout since now c differ = rw differ refl

abbrev pub results : ResultCache String Results
results = record {
  get = get_result;
  set = set_result;
  get_set_same = get_result-set_result_same;
  get_set_other = get_result-set_result_other;
}

abbrev send : ℕ → Result (Option String) × ℕ
send sent = (ok (some "sent"), suc sent)

abbrev send_silently : ℕ → Result (Option String) × ℕ
send_silently sent = (ok none, suc sent)

keys_differ : ◌≢◌ {A = String} "mail:42" "mail:43"
keys_differ e = let got : false ≡ true = (eq_iff "mail:42" "mail:43").1 e in cc
