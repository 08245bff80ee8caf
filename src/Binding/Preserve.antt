-- ===== src/Binding/Preserve.antt =====
-- The three lists stay ordered under `insort_binding`, `insort_binding2` and `insort_binding3`.
use improot.Base.{ℕ, ◌≡◌, refl, inl, inr, Option, none, some, List, [], ◌∷◌, arith, All, Text}
use improot.Binding.{Side, Binding, FileSystem, head, entries, path_at}
use improot.Binding.Insort.{
  Place, replace, between, find_place, insert_after, insert_before, unlink_from,
  remove_binding_from_all_lists, with_head, first_position, insert_between, insort_at,
  insort_binding, insort_binding2, insort_binding3, cached,
}
use improot.Binding.Canonical.{IsSound, IsCanonical, Contains}
use improot.Binding.Order.{
  IsSorted, unlink-All, unlink-IsSorted, LastInside, insert_after-IsSorted, All-insert_after,
  LastInside-EqualAt,
}
use improot.Binding.Place.{Placed, find_place-between, find_place-next, find_place-replace}

-- A list of sound bindings in which no element strictly contains a later one.
abbrev pub IsOrderedList : Side → List Binding → Type 0
IsOrderedList side bs = All IsSound bs × IsSorted side bs

-- The three lists are such lists.
pub record IsOrdered (fs : FileSystem) : Type 0 where
  pub pending : IsOrderedList Side.pending (head fs Side.pending)
  pub guest : IsOrderedList Side.guest (head fs Side.guest)
  pub host : IsOrderedList Side.host (head fs Side.host)

pub on_side : {fs : FileSystem} → IsOrdered fs → (side : Side) → IsOrderedList side (head fs side)
on_side h Side.guest = h.guest
on_side h Side.host = h.host
on_side h Side.pending = h.pending

with_head-IsOrdered :
    {fs : FileSystem} (side : Side) (bs : List Binding)
    → IsOrdered fs
    → IsOrderedList side bs
    → IsOrdered (with_head fs side bs)
with_head-IsOrdered Side.guest bs h k = record { pending = h.pending; guest = k; host = h.host }
with_head-IsOrdered Side.host bs h k = record { pending = h.pending; guest = h.guest; host = k }
with_head-IsOrdered Side.pending bs h k = record { pending = k; guest = h.guest; host = h.host }

unlink_from-IsOrdered :
    (side : Side) (id : ℕ) (bs : Option (List Binding))
    → IsOrderedList side (entries bs)
    → IsOrderedList side (entries (unlink_from id bs))
unfolding unlink_from
unlink_from-IsOrdered side id none h = h
unlink_from-IsOrdered side id (some bs) h = (unlink-All _ id bs h.0, unlink-IsSorted side id bs h.1)

-- Removing a binding keeps the order.
pub remove_binding_from_all_lists-IsOrdered :
    {fs : FileSystem} (b : Binding) → IsOrdered fs → IsOrdered (remove_binding_from_all_lists fs b)
unfolding remove_binding_from_all_lists
remove_binding_from_all_lists-IsOrdered {fs} b h = record {
  pending = unlink_from-IsOrdered Side.pending b.id fs.pending h.pending;
  guest = unlink_from-IsOrdered Side.guest b.id fs.guest h.guest;
  host = unlink_from-IsOrdered Side.host b.id fs.host h.host;
}

module _ (side : Side) {b : Binding} (hb : IsSound b) where
  insert_after-IsOrdered :
      (n : ℕ) (bs : List Binding)
      → LastInside side b bs n
      → IsOrderedList side bs
      → IsOrderedList side (insert_after n b bs)
  insert_after-IsOrdered n bs inside h =
      (All-insert_after _ n b bs hb h.0, insert_after-IsSorted side hb n bs h.0 inside h.1)

  insert_front :
      (bs : List Binding)
      → All (λ y. ¬ (Contains (path_at side b) (path_at side y))) bs
      → IsOrderedList side bs
      → IsOrderedList side (insert_between none (first_position bs) b bs)
  unfolding insert_between insert_before
  insert_front [] out h = ((hb, tt), (tt, tt))
  insert_front (x ∷ xs) out h = ((hb, h.0), (out, h.1))

  insert_between-Placed :
      (bs : List Binding) (p q : Option ℕ)
      → q ≡ first_position bs
      → Placed side b bs 0 none p
      → IsOrderedList side bs
      → IsOrderedList side (insert_between p q b bs)
  insert_between-Placed bs p q eq (inl (ep, out)) h = rw (ep, eq) (insert_front bs out h)
  insert_between-Placed bs p q eq (inr (n, ep, inside)) h =
      let ep' : p ≡ some n = ground arith in
      rw ep' (unfold insert_between in insert_after-IsOrdered n bs inside h)

  next-first :
      (bs : List Binding) (p q : Option ℕ)
      → find_place side b bs 0 none (first_position bs) ≡ between p q
      → q ≡ first_position bs
  next-first [] p q e = unfold find_place in ground arith
  next-first (x ∷ xs) p q e = find_place-next side b (x ∷ xs) 0 none 0 p q e

  -- What `insort_binding` does once the loop has found the place.
  insort_at-IsOrdered :
      {fs : FileSystem} (place : Place)
      → find_place side b (head fs side) 0 none (first_position (head fs side)) ≡ place
      → IsOrdered fs
      → IsOrdered (insort_at fs side b place)
  unfolding insort_at
  insort_at-IsOrdered {fs} (between p q) e h =
      let bs = head fs side in
      with_head-IsOrdered side _ h (
        insert_between-Placed bs p q (next-first bs p q e)
          (find_place-between side b bs 0 none (first_position bs) e) (on_side h side))
  insort_at-IsOrdered {fs} (replace m old) e h =
      let bs = head fs side in
      let (n, em, equal) = find_place-replace side b bs 0 none (first_position bs) e in
      let em' : m ≡ n = omega arith in
      rw em' (
        remove_binding_from_all_lists-IsOrdered old (
          with_head-IsOrdered side _ h (
            insert_after-IsOrdered n bs
              (LastInside-EqualAt side hb bs n (on_side h side).0 (on_side h side).1 equal)
              (on_side h side))))

  -- `insort_binding` of a sound binding keeps all three lists ordered.
  pub insort_binding-IsOrdered :
      {fs : FileSystem} → IsOrdered fs → IsOrdered (insort_binding fs side b)
  unfolding insort_binding
  insort_binding-IsOrdered h = insort_at-IsOrdered _ refl h

-- `insort_binding2` works the flag out itself.
pub insort_binding2-IsOrdered :
    {fs : FileSystem} (b : Binding)
    → IsCanonical b.host
    → IsCanonical b.guest
    → IsOrdered fs
    → IsOrdered (insort_binding2 fs b)
unfolding insort_binding2
insort_binding2-IsOrdered b hh hg h =
    insort_binding-IsOrdered Side.host (record { host = hh; guest = hg; flag = refl })
      (insort_binding-IsOrdered Side.guest (record { host = hh; guest = hg; flag = refl }) h)

-- `insort_binding3` of two canonical paths keeps the three lists ordered: no binding stands
-- before one that lies strictly inside it, on the guest side by guest paths and on the host side
-- by host paths.
pub insort_binding3-IsOrdered :
    (fresh : Option ℕ) (fs : FileSystem) (host_path guest_path : Text)
    → IsCanonical (cached host_path)
    → IsCanonical (cached guest_path)
    → IsOrdered fs
    → IsOrdered (insort_binding3 fresh fs host_path guest_path).1
unfolding insort_binding3
insort_binding3-IsOrdered none fs host_path guest_path hh hg h = h
insort_binding3-IsOrdered (some id) fs host_path guest_path hh hg h =
    insort_binding2-IsOrdered _ hh hg h
