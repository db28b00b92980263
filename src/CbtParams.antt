-- ===== src/CbtParams.antt =====
-- source/cbt_params.c: the parameter string of the persistent change tracking, "major:minor;uuid;ranges."
-- where a range is "offset:length" in bytes and the ranges are separated by commas. A text is the list of
-- its characters without the terminating zero, and a field that is cut out by a zero is the text up to
-- there. The number parsers of the kernel, and its MKDEV, are parameters.
pub mod Fields
pub mod Printed
mod Ranges
pub mod Uuid
mod Tests
use veeamsnap.Prelude.{
  ℕ, zero, suc, ◌+◌, ◌*◌, ◌/◌, Bool, true, false, Option, none, some, List, [], ◌∷◌, ◌++◌, ◌||◌,
  not, ltb, ◌==◌, if◌then◌else◌, length, set, take, replicate, Status, success, einval, enomem,
  is_success, Memory, alloc,
}
use veeamsnap.Range.{Range}
use veeamsnap.RangeVector.{RangeVector, init, cleanup, add}

-- `kstrtouint` and `kstrtou64` with base 10, `kstrtou8` with base 16: the value where they succeed. And
-- `MKDEV`, the kernel's number of a device.
pub record Numbers : Type 0 where
  pub kstrtouint : List ℕ → Status × ℕ
  pub kstrtou64 : List ℕ → Status × ℕ
  pub kstrtou8 : List ℕ → Status × ℕ
  pub mkdev : ℕ → ℕ → ℕ

-- `cbt_persistent_parameters_t`
pub record Parameters : Type 0 where
  pub dev_id : ℕ
  pub part_uuid : List ℕ
  pub rangevector : RangeVector

-- `strchr`, with a zero written over what it finds: the text before it, and the one after it.
pub split_at : ℕ → List ℕ → Option (List ℕ × List ℕ)
split_at c [] = none
split_at c (x ∷ xs) =
    let rest = split_at c xs in
    if x == c
    then some ([], xs)
    else elim rest [ none ↦ none | some (before, after) ↦ some (x ∷ before, after) ]

-- Two numbers with a colon between them.
pub parse_pair : (List ℕ → Status × ℕ) → List ℕ → Status × ℕ × ℕ
parse_pair number str = elim (split_at b':' str) [
  | none ↦ (einval, 0, 0)
  | some (first, second) ↦
      let a = number first in
      let b = number second in
      if not (is_success a.0)
      then (a.0, 0, 0)
      else if not (is_success b.0)
      then (b.0, 0, 0)
      else (success, a.1, b.1)
]

-- `_cbt_prst_parse_device`
pub parse_device : Numbers → List ℕ → Parameters → Status × Parameters
parse_device k str p =
    let r = parse_pair k.kstrtouint str in
    if is_success r.0 then (success, record p { dev_id = k.mkdev r.1 r.2 }) else (r.0, p)

-- The loop of `_cbt_prst_parse_part_uuid`, with the character of `tmp` that is there
pub uuid_loop : Numbers → List ℕ → Option ℕ → ℕ → List ℕ → Status × List ℕ
uuid_loop k [] tmp inx b = (success, b)
uuid_loop k (ch ∷ str) tmp inx b =
    let skip = uuid_loop k str tmp inx b in
    let first = uuid_loop k str (some ch) inx b in
    if not (ltb inx 16) then (success, b) else if ch == b'-' then skip else elim tmp [
      | none ↦ first
      | some c ↦
          let r = k.kstrtou8 (c ∷ ch ∷ []) in
          let next = uuid_loop k str none (inx + 1) (set b inx r.1) in
          if is_success r.0 then next else (r.0, b)
    ]

-- `_cbt_prst_parse_part_uuid`
pub parse_part_uuid : Numbers → List ℕ → Parameters → Status × Parameters
parse_part_uuid k str p =
    let r = uuid_loop k str none 0 p.part_uuid in (r.0, record p { part_uuid = r.1 })

-- `_cbt_prst_parse_range`
pub parse_range : Numbers → List ℕ → Status × ℕ × ℕ
parse_range k str = parse_pair k.kstrtou64 str

-- The body of the loop of `_cbt_prst_parse_rangevector`, and what follows it
pub parse_one : Numbers → List ℕ → RangeVector → Memory → Status × RangeVector × Memory
parse_one k str v mem =
    let (res, ofs, len) = parse_range k str in
    if is_success res
    then add v (record { ofs = ofs / 512; cnt = len / 512 }) mem
    else (res, v, mem)

-- The loop of `_cbt_prst_parse_rangevector`. What follows a comma is shorter than the text, so fuel above
-- the length is enough.
pub ranges_loop :
    ℕ → Numbers → List ℕ → RangeVector → Memory → Option (Status × RangeVector × Memory)
ranges_loop zero k str v mem = none
ranges_loop (suc fuel) k str v mem = elim (split_at b',' str) [
  | none ↦ if length str == 0 then some (success, v, mem) else some (parse_one k str v mem)
  | some (before, after) ↦
      let r = parse_one k before v mem in
      let rest = ranges_loop fuel k after r.1 r.2 in if is_success r.0 then rest else some r
]

-- `_cbt_prst_parse_rangevector`
pub parse_rangevector :
    Numbers → List ℕ → Parameters → Memory → Option (Status × Parameters × Memory)
parse_rangevector k str p mem = elim (ranges_loop (suc (length str)) k str p.rangevector mem) [
  | none ↦ none
  | some (res, v, mem') ↦ some (res, record p { rangevector = v }, mem')
]

-- The `switch` on the index of the field.
pub parse_field : Numbers → ℕ → List ℕ → Parameters → Memory → Option (Status × Parameters × Memory)
parse_field k zero str p mem = let r = parse_device k str p in some (r.0, r.1, mem)
parse_field k (suc zero) str p mem = let r = parse_part_uuid k str p in some (r.0, r.1, mem)
parse_field k (suc (suc zero)) str p mem = parse_rangevector k str p mem
parse_field k (suc (suc (suc _))) str p mem = some (success, p, mem)

-- The loop of `cbt_prst_parse_parameters`, with the characters since `substr_begin`
pub parse_loop :
    Numbers → List ℕ → List ℕ → ℕ → Parameters → Memory → Option (Status × Parameters × Memory)
parse_loop k [] substr param_index p mem = some (success, p, mem)
parse_loop k (ch ∷ str) substr param_index p mem =
    let longer = parse_loop k str (substr ++ ch ∷ []) param_index p mem in
    if ch == b';' || ch == b'.'
    then elim (parse_field k param_index substr p mem) [
      | none ↦ none
      | some (res, p', mem') ↦
          let rest = parse_loop k str [] (param_index + 1) p' mem' in
          if ch == b'.'
          then some (res, p', mem')
          else if is_success res
          then rest
          else some (res, p', mem')
    ]
    else longer

-- `cbt_prst_parse_parameters`: `none` for a null pointer. A failure frees the ranges.
pub parse_parameters :
    Numbers → Option (List ℕ) → Parameters → Memory → Option (Status × Parameters × Memory)
parse_parameters k none p mem = some (einval, p, mem)
parse_parameters k (some params_str) p mem =
    let (granted, mem') = alloc mem in
    let parsed = parse_loop k (take 4096 params_str) [] 0 (record p { rangevector = init }) mem' in
    if not granted then some (enomem, p, mem') else elim parsed [
      | none ↦ none
      | some (res, p', mem'') ↦
          if is_success res
          then some (success, p', mem'')
          else some (res, record p' { rangevector = cleanup p'.rangevector }, mem'')
    ]
