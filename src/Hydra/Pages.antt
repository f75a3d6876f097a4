-- ===== src/Hydra/Pages.antt =====
-- usr/lib/smd/lib/modules/hydra.py: `HydraServer.pages`, the memory that is reserved for the machines.
pub mod Balance
use spaceport.Base.{
  ℕ, ◌+◌, ◌-◌, ◌≡◌, ◌≤◌, ◌<◌, refl, Bool, true, false, not, Option, none, some, List, [], ◌∷◌, leb,
  ltb, ◌==◌, if◌then◌else◌, arith, inl, inr, Bool-cases, Option-cases,
}
use spaceport.Base.Int.{ℤ, pos, negsuc}
use spaceport.Base.Table.{Table, lookup, insert, erase, Distinct, lookup-erase}
use spaceport.Hydra.State.{Shared, Ended, returned, error, Env}

-- `sum(self._pages.values())`
unfoldable pub total : Table ℕ → ℕ
total [] = 0
total ((_, n) ∷ d) = n + total d

-- The difference of two numbers
abbrev pub minus : ℕ → ℕ → ℤ
minus a b = if leb b a then pos (a - b) else negsuc (b - a - 1)

abbrev pub larger : ℕ → ℕ → ℕ
larger a b = if leb a b then b else a

-- The pages of a machine, which may have some already.
abbrev pub more_pages : ℕ → ℕ → Option ℕ → Table ℕ → Table ℕ
more_pages vmid size none d = insert vmid size d
more_pages vmid size (some n) d = insert vmid (n + size) d

-- `pages` without `remove`: a size that is no positive number is passed over.
unfoldable pub add_pages : Bool → ℕ → Option ℕ → Shared → Ended × Shared
add_pages writes vmid none s = (returned, s)
add_pages writes vmid (some size) s =
    if size == 0 then (returned, s) else if not writes then (error "cannot reserve pages", s) else (
      returned,
      record s {
        reserved = pos (total s.pages + size);
        pages = more_pages vmid size (lookup vmid s.pages) s.pages;
      },
    )

-- `pages` with `remove`, for a machine with n pages
unfoldable pub take_pages : Bool → ℕ → ℕ → ℕ → Shared → Ended × Shared
take_pages writes vmid n size s = if not writes then (error "cannot reserve pages", s) else (
  returned,
  record s {
    reserved = minus (total s.pages) (larger n size);
    pages = if leb n size then erase vmid s.pages else insert vmid (n - size) s.pages;
  },
)

abbrev pub size_or : ℕ → Option ℕ → ℕ
size_or n none = n
size_or n (some size) = size

-- `pages` with `remove`; without a size, all that the machine has.
unfoldable pub remove_from : Bool → ℕ → Option ℕ → Option ℕ → Shared → Ended × Shared
remove_from writes vmid size none s = (returned, s)
remove_from writes vmid size (some n) s = take_pages writes vmid n (size_or n size) s

unfoldable pub remove_pages : Bool → ℕ → Option ℕ → Shared → Ended × Shared
remove_pages writes vmid size s = remove_from writes vmid size (lookup vmid s.pages) s

-- `pages(server, vmid, size, remove)`; sizes are not negative.
unfoldable pub pages : Bool → ℕ → Option ℕ → Bool → Shared → Ended × Shared
pages writes vmid size remove s =
    if remove then remove_pages writes vmid size s else add_pages writes vmid size s
