-- ===== src/CbtParams/Printed.antt =====
-- The parameter string is read back: what the fields were printed from is what the parsers find.
use veeamsnap.Prelude.{
  ℕ, ◌+◌, ◌≤◌, ◌≡◌, refl, ap, ◌∙◌, some, List, [], ◌∷◌, ◌++◌, All, length, take, take-all, Status,
  success, Memory,
}
use veeamsnap.Range.{Range}
use veeamsnap.RangeVector.{RangeVector, slots, init}
use veeamsnap.RangeVector.Store.{IsValid, init-IsValid}
use veeamsnap.CbtParams.{
  Numbers, Parameters, parse_device, parse_field, parse_loop, parse_parameters,
}
use veeamsnap.CbtParams.Fields.{
  Without, parse_pair_lem, Unbroken, parse_loop-field, parse_loop-next, parse_loop-last,
}
use veeamsnap.CbtParams.Uuid.{Octet, print_uuid, values, ReadsOctet, parse_part_uuid_lem}
use veeamsnap.CbtParams.Ranges.{
  RangeText, print_ranges, ranges_of, ReadsRange, parse_rangevector_lem,
}

-- The fields that a string is printed from: two texts for the device, with their numbers.
pub record Fields : Type 0 where
  pub major_text : List ℕ
  pub minor_text : List ℕ
  pub major : ℕ
  pub minor : ℕ
  pub uuid : List Octet
  pub ranges : List RangeText

abbrev pub print_device : Fields → List ℕ
print_device f = f.major_text ++ b':' ∷ f.minor_text

abbrev pub print : Fields → List ℕ
print f =
    print_device f ++ b';' ∷ (print_uuid f.uuid ++ b';' ∷ (print_ranges f.ranges ++ b'.' ∷ []))

-- The kernel reads the numbers from their texts, and no text has a separator of the fields in it.
pub record Reads (k : Numbers) (f : Fields) : Type 0 where
  pub major_read : k.kstrtouint f.major_text ≡ (success, f.major)
  pub minor_read : k.kstrtouint f.minor_text ≡ (success, f.minor)
  pub no_colon : Without b':' f.major_text
  pub octets : All (ReadsOctet k) f.uuid
  pub sixteen : length f.uuid ≡ 16
  pub ranges_read : All (ReadsRange k) f.ranges
  pub device_unbroken : Unbroken (print_device f)
  pub uuid_unbroken : Unbroken (print_uuid f.uuid)
  pub ranges_unbroken : Unbroken (print_ranges f.ranges)

-- A field, the semicolon behind it, and the rest.
one_field :
    (k : Numbers) (a str : List ℕ) (i : ℕ) (p p' : Parameters) (mem mem' : Memory)
    → Unbroken a
    → parse_field k i a p mem ≡ some (success, p', mem')
    → parse_loop k (a ++ b';' ∷ str) [] i p mem ≡ parse_loop k str [] (i + 1) p' mem'
one_field k a str i p p' mem mem' h e =
    parse_loop-field k a (b';' ∷ str) [] i p mem h ∙ parse_loop-next k str a i p p' mem mem' e

read_device :
    (k : Numbers) (f : Fields) (p : Parameters)
    → Reads k f
    → parse_device k (print_device f) p ≡ (success, record p { dev_id = k.mkdev f.major f.minor })
unfolding parse_device
read_device k f p r =
    rw
      (parse_pair_lem k.kstrtouint f.major_text f.minor_text f.major f.minor r.no_colon r.major_read
        r.minor_read)
      refl

-- `cbt_prst_parse_parameters` of a string of up to 4096 characters that is printed from a device, a UUID of
-- 16 bytes and ranges, where the kernel reads each number from its text, the texts have no separators in
-- them and the allocator refuses nothing: it succeeds with the device number that the kernel's MKDEV makes
-- of the two numbers of the device, that UUID and those ranges, in their order, with bytes turned into
-- sectors.
pub parse_parameters-print :
    (k : Numbers) (f : Fields) (p : Parameters)
    → Reads k f
    → length (print f) ≤ 4096
    → length p.part_uuid ≡ 16
    → (v : RangeVector) × (parse_parameters k (some (print f)) p []
        ≡ some (
          success,
          record { dev_id = k.mkdev f.major f.minor; part_uuid = values f.uuid; rangevector = v },
          [],
        ))
      × IsValid v
      × (slots v.els ≡ ranges_of f.ranges)
unfolding parse_parameters parse_field
parse_parameters-print k f p r short sixteen =
    let p0 : Parameters = record p { rangevector = init } in
    let p1 : Parameters = record p0 { dev_id = k.mkdev f.major f.minor } in
    let p2 : Parameters = record p1 { part_uuid = values f.uuid } in
    let (v, e, valid, held) = parse_rangevector_lem k f.ranges p2 r.ranges_read init-IsValid.0 in
    let p3 : Parameters = record p2 { rangevector = v } in
    let rest2 : List ℕ = print_ranges f.ranges ++ b'.' ∷ [] in
    let rest1 : List ℕ = print_uuid f.uuid ++ b';' ∷ rest2 in
    let device =
      one_field k (print_device f) rest1 0 p0 p1 [] [] r.device_unbroken
        (ap (λ (q : Status × Parameters). some (q.0, q.1, [])) (read_device k f p0 r)) in
    let uuid = one_field k (print_uuid f.uuid) rest2 1 p1 p2 [] [] r.uuid_unbroken (
      ap (λ (q : Status × Parameters). some (q.0, q.1, []))
        (parse_part_uuid_lem k f.uuid p1 r.octets r.sixteen sixteen)) in
    let ranges =
      parse_loop-field k (print_ranges f.ranges) (b'.' ∷ []) [] 2 p2 [] r.ranges_unbroken
      ∙ parse_loop-last k [] (print_ranges f.ranges) 2 p2 p3 [] [] e in
    let whole : parse_loop k (take 4096 (print f)) [] 0 p0 [] ≡ some (success, p3, []) =
      ap (λ (s : List ℕ). parse_loop k s [] 0 p0 []) (take-all 4096 (print f) short)
      ∙ device
      ∙ uuid
      ∙ ranges in
    (
      v,
      rw whole refl,
      valid,
      held ∙ ap (λ (xs : List Range). xs ++ ranges_of f.ranges) init-IsValid.1,
    )
