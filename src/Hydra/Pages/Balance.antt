-- ===== src/Hydra/Pages/Balance.antt =====
-- usr/lib/smd/lib/modules/hydra.py: `HydraServer.pages` keeps the memory that is reserved equal to what the machines have.
use spaceport.Base.{
  ℕ, ◌+◌, ◌≡◌, refl, sym, ap, Bool, true, false, not, ◌&&◌, Option, none, some, [], ◌∷◌, ◌==◌,
  if◌then◌else◌, is_some, arith,
}
use spaceport.Base.Int.{pos}
use spaceport.Base.Table.{Table, lookup, insert, erase, Distinct, insert-Distinct, erase-Distinct}
use spaceport.Hydra.State.{Shared, Ended, returned, error}
use spaceport.Hydra.Pages.{
  total, minus, larger, add_pages, take_pages, more_pages, remove_from, remove_pages, pages,
}

-- The pages that are reserved are those of the machines.
abbrev pub Balanced : Shared → Type 0
Balanced s = (s.reserved ≡ pos (total s.pages)) × Distinct s.pages

total-insert_new : (k n : ℕ) (d : Table ℕ) → lookup k d ≡ none → total (insert k n d) ≡ total d + n
unfolding total
total-insert_new k n [] h = omega arith
total-insert_new k n ((j, m) ∷ d) h = ground (arith, total-insert_new k n d)

total-insert_old :
    (k n m : ℕ) (d : Table ℕ) → lookup k d ≡ some m → total (insert k n d) + m ≡ total d + n
unfolding total
total-insert_old k n m [] h = cc
total-insert_old k n m ((j, i) ∷ d) h = ground (arith, total-insert_old k n m d)

total-erase_new : (k : ℕ) (d : Table ℕ) → lookup k d ≡ none → erase k d ≡ d
total-erase_new k [] h = refl
total-erase_new k ((j, i) ∷ d) h = ground (arith, total-erase_new k d)

total-erase :
    (k m : ℕ) (d : Table ℕ) → Distinct d → lookup k d ≡ some m → total (erase k d) + m ≡ total d
unfolding total
total-erase k m [] p h = cc
total-erase k m ((j, i) ∷ d) p h = ground (arith, total-erase k m d p.1, total-erase_new k d)

minus_more : (a n : ℕ) → minus (a + n) n ≡ pos a
minus_more a n = ground arith

larger_self : (n : ℕ) → larger n n ≡ n
larger_self n = ground arith

if_Balanced :
    (b : Bool) (x y : Ended × Shared)
    → Balanced x.1
    → Balanced y.1
    → Balanced (if b then x else y).1
if_Balanced true x y h k = h
if_Balanced false x y h k = k

total-more_pages :
    (k n : ℕ) (o : Option ℕ) (d : Table ℕ)
    → lookup k d ≡ o
    → total (more_pages k n o d) ≡ total d + n
total-more_pages k n none d h = total-insert_new k n d h
total-more_pages k n (some m) d h = omega (arith, total-insert_old k (m + n) m d h)

more_pages-Distinct :
    (k n : ℕ) (o : Option ℕ) (d : Table ℕ) → Distinct d → Distinct (more_pages k n o d)
more_pages-Distinct k n none d h = insert-Distinct k n d h
more_pages-Distinct k n (some m) d h = insert-Distinct k (m + n) d h

module _ (vmid : ℕ) (s : Shared) (b : Balanced s) where
  add_pages-Balanced : (writes : Bool) (size : Option ℕ) → Balanced (add_pages writes vmid size s).1
  unfolding add_pages
  add_pages-Balanced writes none = b
  add_pages-Balanced writes (some n) =
      let o : Option ℕ = lookup vmid s.pages in
      let more : Shared = record s {
        reserved = pos (total s.pages + n);
        pages = more_pages vmid n o s.pages;
      } in
      if_Balanced (n == 0) (returned, s)
        (if not writes then (error "cannot reserve pages", s) else (returned, more)) b
        (if_Balanced (not writes) (error "cannot reserve pages", s) (returned, more) b
          (
            ap pos (sym (total-more_pages vmid n o s.pages refl)),
            more_pages-Distinct vmid n o s.pages b.1,
          ))

  take_pages-Balanced :
      (writes : Bool) (n : ℕ)
      → lookup vmid s.pages ≡ some n
      → Balanced (take_pages writes vmid n n s).1
  unfolding take_pages
  take_pages-Balanced false n h = b
  take_pages-Balanced true n h =
      let left : ℕ = total (erase vmid s.pages) in
      ground (
        arith,
        larger_self n,
        minus_more left n,
        total-erase vmid n s.pages b.1 h,
        erase-Distinct vmid s.pages b.1,
      )

  remove_from-Balanced :
      (writes : Bool) (o : Option ℕ)
      → lookup vmid s.pages ≡ o
      → Balanced (remove_from writes vmid none o s).1
  unfolding remove_from
  remove_from-Balanced writes none e = b
  remove_from-Balanced writes (some n) e = take_pages-Balanced writes n e

  -- The pages that are reserved stay those that the machines have, each once, when a machine gets more or gives
  -- back all that it has, whether the number can be written or not.
  pub pages-Balanced :
      (writes remove : Bool) (size : Option ℕ)
      → (remove && is_some size) ≡ false
      → Balanced (pages writes vmid size remove s).1
  unfolding pages remove_pages
  pages-Balanced writes false size h = add_pages-Balanced writes size
  pages-Balanced writes true none h = remove_from-Balanced writes (lookup vmid s.pages) refl
  pages-Balanced writes true (some n) h = cc
