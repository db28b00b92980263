-- ===== src/TrackerQueue/Race.antt =====
-- Two clients of one disk at once: the search and the insertion of `tracker_disk_create_or_get` are two
-- critical sections, and both clients may search before one of them inserts.
use mathlib.Core.List.{append_assoc, append-nil}
use veeamsnap.Prelude.{
  ℕ, ◌≡◌, ◌≢◌, refl, ap, ◌∙◌, true, false, List, [], ◌∷◌, ◌++◌, ◌==◌, ==_iff, All, arith,
}
use veeamsnap.TrackerQueue.{
  Fops, tracking, TrackerDisk, Registry, set_fops, insert_disk, at_address, put_ref, restore, put,
}

at_address-append :
    (address : ℕ) (xs ys : List TrackerDisk)
    → All (λ x. x.address ≢ address) xs
    → at_address address (xs ++ ys) ≡ at_address address ys
unfolding at_address
at_address-append address [] ys h = refl
at_address-append address (x ∷ xs) ys h =
    let other : x.address == address ≡ false = ground (arith, h.0) in
    rw other (at_address-append address xs ys h.1)

put_ref-append :
    (address : ℕ) (xs ys : List TrackerDisk)
    → All (λ x. x.address ≢ address) xs
    → put_ref address (xs ++ ys) ≡ xs ++ put_ref address ys
unfolding put_ref
put_ref-append address [] ys h = refl
put_ref-append address (x ∷ xs) ys h =
    let other : x.address == address ≡ false = ground (arith, h.0) in
    rw other (ap (◌∷◌ x) (put_ref-append address xs ys h.1))

-- The entry that an insertion makes.
abbrev entry : ℕ → ℕ → Fops → TrackerDisk
entry disk address f = record { address = address; kref = 1; disk = disk; original_fops = f }

-- A put of the last reference, to an entry behind others.
put-last :
    (r : Registry) (xs ys : List TrackerDisk) (disk address : ℕ) (f : Fops)
    → All (λ x. x.address ≢ address) xs
    → r.container ≡ xs ++ entry disk address f ∷ ys
    → put address r ≡ record { container = xs ++ ys; fops = set_fops disk f r.fops }
unfolding put restore at_address put_ref
put-last r xs ys disk address f fresh e =
    let same : address == address ≡ true = (==_iff address address).1 refl in
    rw
      (
        e,
        at_address-append address xs (entry disk address f ∷ ys) fresh,
        put_ref-append address xs (entry disk address f ∷ ys) fresh,
      )
      (rw same refl)

-- Where two clients of a disk that is not tracked both search and then both insert, and put their
-- references in the order of the insertions, with two addresses that are not in use, neither entry is
-- left, and the disk's table is the one in the tracker disk that was freed first.
pub raced_lem :
    (r : Registry) (disk a b : ℕ)
    → a ≢ b
    → All (λ x. x.address ≢ a) r.container
    → All (λ x. x.address ≢ b) r.container
    → let r' = put b (put a (insert_disk disk b (insert_disk disk a r))) in
      (r'.container ≡ r.container) × (r'.fops disk ≡ tracking a)
unfolding insert_disk
raced_lem r disk a b ne fresh_a fresh_b =
    let xs : List TrackerDisk = r.container in
    let here : disk == disk ≡ true = (==_iff disk disk).1 refl in
    let r2 : Registry = insert_disk disk b (insert_disk disk a r) in
    let second : TrackerDisk = entry disk b (tracking a) in
    let shape : r2.container ≡ xs ++ entry disk a (r.fops disk) ∷ (second ∷ []) =
      rw here (append_assoc xs (entry disk a (r.fops disk) ∷ []) (second ∷ [])) in
    let r3 : Registry = record {
      container = xs ++ second ∷ [];
      fops = set_fops disk (r.fops disk) r2.fops;
    } in
    let one : put a r2 ≡ r3 = put-last r2 xs (second ∷ []) disk a (r.fops disk) fresh_a shape in
    let two : put b r3
        ≡ record { container = xs ++ []; fops = set_fops disk (tracking a) r3.fops } =
      put-last r3 xs [] disk b (tracking a) fresh_b refl in
    let all = ap (put b) one ∙ two in
    (
      ap (λ (q : Registry). q.container) all ∙ append-nil xs,
      ap (λ (q : Registry). q.fops disk) all ∙ (rw here refl),
    )
