-- ===== src/CbtParams/Uuid.antt =====
-- `_cbt_prst_parse_part_uuid` reads back the 16 bytes that a UUID was printed from.
use mathlib.Core.List.{append_assoc}
use veeamsnap.Prelude.{
  ℕ, ◌+◌, ◌<◌, ◌≡◌, refl, sym, ap, ◌∙◌, Bool, true, false, none, List, [], ◌∷◌, ◌++◌, ◌==◌, lt→ltb,
  if◌then◌else◌, Bool-cases, inl, inr, All, length, length-append, set, Status, success, arith,
}
use veeamsnap.CbtParams.{Numbers, Parameters, uuid_loop, parse_part_uuid}

-- A byte of the UUID, as two digits, with or without a dash before them.
pub record Octet : Type 0 where
  pub dash : Bool
  pub high : ℕ
  pub low : ℕ
  pub value : ℕ

abbrev pub print_uuid : List Octet → List ℕ
print_uuid [] = []
print_uuid (o ∷ os) =
    if o.dash then b'-' ∷ o.high ∷ o.low ∷ print_uuid os else o.high ∷ o.low ∷ print_uuid os

abbrev pub values : List Octet → List ℕ
values [] = []
values (o ∷ os) = o.value ∷ values os

abbrev pub ReadsOctet : Numbers → Octet → Type 0
ReadsOctet k o =
    (k.kstrtou8 (o.high ∷ o.low ∷ []) ≡ (success, o.value))
    × ((o.high == b'-') ≡ false)
    × ((o.low == b'-') ≡ false)

set_next :
    (done rest : List ℕ) (x v : ℕ)
    → set (done ++ x ∷ rest) (length done) v ≡ (done ++ v ∷ []) ++ rest
set_next [] rest x v = refl
set_next (d ∷ done) rest x v = ap (◌∷◌ d) (set_next done rest x v)

uuid_pair :
    (k : Numbers) (o : Octet) (str b : List ℕ) (inx : ℕ)
    → inx < 16
    → ReadsOctet k o
    → uuid_loop k (o.high ∷ o.low ∷ str) none inx b
      ≡ uuid_loop k str none (inx + 1) (set b inx o.value)
unfolding uuid_loop
uuid_pair k o str b inx h r = rw (lt→ltb inx 16 h, r.1, r.2, r.0) refl

uuid_dash :
    (k : Numbers) (str b : List ℕ) (inx : ℕ)
    → inx < 16
    → uuid_loop k (b'-' ∷ str) none inx b ≡ uuid_loop k str none inx b
unfolding uuid_loop
uuid_dash k str b inx h = rw (lt→ltb inx 16 h) refl

dash-print :
    (o : Octet) (os : List Octet)
    → o.dash ≡ true
    → print_uuid (o ∷ os) ≡ b'-' ∷ o.high ∷ o.low ∷ print_uuid os
dash-print o os y =
    ap
      (λ (t : Bool).
        if t then b'-' ∷ o.high ∷ o.low ∷ print_uuid os else o.high ∷ o.low ∷ print_uuid os)
      y

plain-print :
    (o : Octet) (os : List Octet)
    → o.dash ≡ false
    → print_uuid (o ∷ os) ≡ o.high ∷ o.low ∷ print_uuid os
plain-print o os n =
    ap
      (λ (t : Bool).
        if t then b'-' ∷ o.high ∷ o.low ∷ print_uuid os else o.high ∷ o.low ∷ print_uuid os)
      n

uuid_octet :
    (k : Numbers) (o : Octet) (os : List Octet) (b : List ℕ) (inx : ℕ)
    → inx < 16
    → ReadsOctet k o
    → uuid_loop k (print_uuid (o ∷ os)) none inx b
      ≡ uuid_loop k (print_uuid os) none (inx + 1) (set b inx o.value)
uuid_octet k o os b inx h r =
    let digits = uuid_pair k o (print_uuid os) b inx h r in
    elim (Bool-cases o.dash) [
      | inl y ↦
          ap (λ (t : List ℕ). uuid_loop k t none inx b) (dash-print o os y)
          ∙ uuid_dash k (o.high ∷ o.low ∷ print_uuid os) b inx h
          ∙ digits
      | inr n ↦ ap (λ (t : List ℕ). uuid_loop k t none inx b) (plain-print o os n) ∙ digits
    ]

uuid_loop_lem :
    (k : Numbers) (os : List Octet) (done rest : List ℕ)
    → All (ReadsOctet k) os
    → length rest ≡ length os
    → length done + length os ≡ 16
    → uuid_loop k (print_uuid os) none (length done) (done ++ rest) ≡ (success, done ++ values os)
unfolding uuid_loop
uuid_loop_lem k [] done [] h e f = ap (λ (b : List ℕ). (success, b)) refl
uuid_loop_lem k [] done (x ∷ rest) h e f = absurd (omega (arith, e))
uuid_loop_lem k (o ∷ os) done [] h e f = absurd (omega (arith, e))
uuid_loop_lem k (o ∷ os) done (x ∷ rest) h e f =
    let done' : List ℕ = done ++ o.value ∷ [] in
    let count : length done' ≡ length done + 1 = length-append done (o.value ∷ []) in
    let rest_of = uuid_loop_lem k os done' rest h.1 (omega (arith, e)) (omega (arith, count, f)) in
    uuid_octet k o os (done ++ x ∷ rest) (length done) (omega (arith, f)) h.0
    ∙ ap (λ (b : List ℕ). uuid_loop k (print_uuid os) none (length done + 1) b)
        (set_next done rest x o.value)
    ∙ ap (λ (n : ℕ). uuid_loop k (print_uuid os) none n (done' ++ rest)) (sym count)
    ∙ rest_of
    ∙ ap (λ (b : List ℕ). (success, b)) (append_assoc done (o.value ∷ []) (values os))

pub parse_part_uuid_lem :
    (k : Numbers) (os : List Octet) (p : Parameters)
    → All (ReadsOctet k) os
    → length os ≡ 16
    → length p.part_uuid ≡ 16
    → parse_part_uuid k (print_uuid os) p ≡ (success, record p { part_uuid = values os })
unfolding parse_part_uuid
parse_part_uuid_lem k os p h e f =
    let read = uuid_loop_lem k os [] p.part_uuid h (f ∙ sym e) (omega (arith, e)) in
    ap (λ (r : Status × List ℕ). (r.0, record p { part_uuid = r.1 })) read
