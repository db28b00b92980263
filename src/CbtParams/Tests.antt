-- ===== src/CbtParams/Tests.antt =====
-- Parameter strings.
use veeamsnap.Prelude.{
  ℕ, zero, suc, ◌∙◌, sym, ◌+◌, ◌-◌, ◌*◌, ◌≡◌, ◌||◌, ◌==◌, refl, Bool, true, false, some, List, [],
  ◌∷◌, All, ltb, if◌then◌else◌, Bool-cases, inl, inr, replicate, success, einval, arith,
}
use veeamsnap.RangeVector.{RangeVector, slots, init}
use veeamsnap.RangeVector.Store.{IsValid}
use veeamsnap.CbtParams.{Numbers, Parameters, parse_parameters, parse_device, parse_pair, split_at}
use veeamsnap.CbtParams.Fields.{Unbroken}
use veeamsnap.CbtParams.Uuid.{print_uuid, Octet, ReadsOctet}
use veeamsnap.CbtParams.Ranges.{print_ranges}
use veeamsnap.CbtParams.Printed.{Fields, Reads, print, print_device, parse_parameters-print}

-- The number that the digits of a base stand for, with the digits before them.
abbrev digits : ℕ → ℕ → List ℕ → ℕ
digits base n [] = n
digits base n (c ∷ cs) =
    digits base (n * base + (if ltb c b'a' then c - b'0' else c - b'a' + 10)) cs

abbrev numbers : Numbers
numbers = record {
  kstrtouint = λ s. (success, digits 10 0 s);
  kstrtou64 = λ s. (success, digits 10 0 s);
  kstrtou8 = λ s. (success, digits 16 0 s);
  mkdev = λ major minor. major * 1048576 + minor;
}

abbrev octet : Octet
octet = record { dash = false; high = b'a'; low = b'5'; value = 165 }

abbrev fields : Fields
fields = record {
  major_text = b'8' ∷ [];
  minor_text = b'1' ∷ b'7' ∷ [];
  major = 8;
  minor = 17;
  uuid = record octet { dash = true } ∷ replicate 15 octet;
  ranges =
      record {
        ofs_text = b'5' ∷ b'1' ∷ b'2' ∷ [];
        len_text = b'1' ∷ b'0' ∷ b'2' ∷ b'4' ∷ [];
        ofs = 512;
        len = 1024;
      }
      ∷ record { ofs_text = b'0' ∷ []; len_text = b'5' ∷ b'1' ∷ b'2' ∷ []; ofs = 0; len = 512 }
      ∷ [];
}

abbrev unbroken : List ℕ → Bool
unbroken [] = true
unbroken (x ∷ xs) = if x == b';' || x == b'.' then false else unbroken xs

unbroken-Unbroken : (xs : List ℕ) → unbroken xs ≡ true → Unbroken xs
unbroken-Unbroken [] h = tt
unbroken-Unbroken (x ∷ xs) h = elim (Bool-cases (x == b';' || x == b'.')) [
  | inl y ↦ absurd (ground (arith, h, y))
  | inr n ↦ (n, unbroken-Unbroken xs (sym (rw n refl) ∙ h))
]

All-replicate :
    (n : ℕ) (o : Octet) → ReadsOctet numbers o → All (ReadsOctet numbers) (replicate n o)
All-replicate zero o h = tt
All-replicate (suc n) o h = (h, All-replicate n o h)

fields-Reads : Reads numbers fields
fields-Reads = record {
  major_read = refl;
  minor_read = refl;
  no_colon = (refl, tt);
  octets = ((refl, refl, refl), All-replicate 15 octet (refl, refl, refl));
  sixteen = refl;
  ranges_read = (
    (
      refl,
      refl,
      (refl, (refl, (refl, tt))),
      (refl, (refl, (refl, tt))),
      (refl, (refl, (refl, (refl, tt)))),
    ),
    ((refl, refl, (refl, tt), (refl, tt), (refl, (refl, (refl, tt)))), tt),
  );
  device_unbroken = unbroken-Unbroken (print_device fields) refl;
  uuid_unbroken = unbroken-Unbroken (print_uuid fields.uuid) refl;
  ranges_unbroken = unbroken-Unbroken (print_ranges fields.ranges) refl;
}

abbrev blank : Parameters
blank = record { dev_id = 0; part_uuid = replicate 16 0; rangevector = init }

no_colon : (parse_device numbers (b'8' ∷ []) blank).0 ≡ einval
unfolding parse_device parse_pair split_at
no_colon = refl

parse_parameters-print_example :
    (v : RangeVector) × (parse_parameters numbers (some (print fields)) blank []
      ≡ some (
        success,
        record { dev_id = 8 * 1048576 + 17; part_uuid = replicate 16 165; rangevector = v },
        [],
      ))
    × IsValid v
    × (slots v.els ≡ record { ofs = 1; cnt = 2 } ∷ record { ofs = 0; cnt = 1 } ∷ [])
parse_parameters-print_example =
    parse_parameters-print numbers fields blank fields-Reads (ground arith) refl
