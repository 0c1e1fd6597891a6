-- ===== src/Page/Edit/RoundTrip.antt =====
-- `insertEntry`, and `removeEntry` of what it inserted.
use native.Mathlib.Decide.{dec_lt}
use gdbx.Base.{ℕ, ◌+◌, ◌≤◌, ◌<◌, ◌≡◌, ◌∙◌, List, length, ok, true, arith}
use gdbx.Bytes.{Bytes}
use gdbx.Page.Shape.{lower, upper, count, offset_of, bytes_from, IsPage}
use gdbx.Page.Edit.{insert_entry_with_buf, remove_entry}
use gdbx.Page.Edit.Insert.{insert_entry_lem}
use gdbx.Page.Edit.Remove.{remove_entry_lem}

-- On a well-formed page of at most 64 KB with room for a node of at least one byte and its entry, for
-- an index of at most the number of entries, `insertEntry` and then `removeEntry` of the same index
-- both return true without a panic, and leave a well-formed page with the entries of before, in order,
-- and their bytes; the space of the node stays taken.
pub insert-remove :
    (p : Bytes) (idx : ℕ) (node : List ℕ)
    → IsPage p
    → idx ≤ count p
    → 0 < length node
    → lower p + 2 + length node ≤ upper p
    → (scratch : Bytes) (pooled : ℕ → ℕ)
    → (q r : Bytes) × (insert_entry_with_buf p idx node scratch pooled ≡ ok (q, true))
      × (remove_entry q idx ≡ ok (r, true))
      × (count r ≡ count p)
      × ((i n : ℕ) → i < count p → bytes_from r (offset_of r i) n ≡ bytes_from p (offset_of p i) n)
      × (upper r + length node ≡ upper p)
      × IsPage r
insert-remove p idx node v i_ok filled room scratch pooled =
    let (q, run, ins) = insert_entry_lem p idx node v i_ok filled room scratch pooled in
    let (r, run', rem) = remove_entry_lem q idx ins.page (omega (arith, ins.counted, i_ok)) in
    (
      q,
      r,
      run,
      run',
      omega (arith, ins.counted, rem.counted),
      λ i n h. elim (dec_lt i idx) [
        | yes b ↦ rem.before i n b ∙ ins.before i n b
        | no b ↦
            rem.after i n (omega arith) (omega (arith, ins.counted)) ∙ ins.after i n (omega arith) h
      ],
      omega (arith, ins.taken, rem.same_upper),
      rem.page,
    )
