-- ===== src/Docparse/Regions/Starts.antt =====
-- The start markers that the pairing of pkg/doczcore/docparse/regions.go has met.
use docz.Prelude.{
  ℕ, false, ◌≡◌, inl, inr, refl, ap, Option, none, some, List, [], ◌∷◌, ◌++◌, append-nil,
  append_assoc, Bool-cases, length,
}
use docz.Text.{Text, equal}
use mathlib.Core.List.{Perm, perm_middle}
use mathlib.Core.List.Perm
use docz.Docparse.Markers.{Role, start, finish, Marker}
use docz.Docparse.Regions.{
  Region, OpenRegion, OpenStack, end_region, pair, pair_all, pair_role, after_end, end_inner,
  paired, close, close_all,
}

abbrev pub Key : Type 0
Key = Text × ℕ

-- what a region takes from its start marker
abbrev pub region_key : Region → Key
region_key r = (r.kind, r.first)

abbrev pub region_keys : List Region → List Key
region_keys [] = []
region_keys (r ∷ rs) = region_key r ∷ region_keys rs

abbrev pub open_keys : OpenStack → List Key
open_keys [] = []
open_keys (o ∷ os) = (o.kind, o.first) ∷ open_keys os

abbrev pub start_key : Marker → Role → List Key → List Key
start_key m start rest = (m.kind, m.line) ∷ rest
start_key m finish rest = rest

-- the kinds and the lines of the start markers
abbrev pub start_keys : List Marker → List Key
start_keys [] = []
start_keys (m ∷ ms) = start_key m m.role (start_keys ms)

pub region_keys-append :
    (xs ys : List Region) → region_keys (xs ++ ys) ≡ region_keys xs ++ region_keys ys
region_keys-append [] ys = refl
region_keys-append (x ∷ xs) ys = ap (◌∷◌ (x.kind, x.first)) (region_keys-append xs ys)

-- What `close` ends and what it leaves spell the stack.
abbrev pub Spells : OpenStack → Option (List Region × OpenStack) → Type 0
Spells stack none = Unit
Spells stack (some (ended, left)) = region_keys ended ++ open_keys left ≡ open_keys stack

pub end_inner-Spells :
    (o : OpenRegion) (line : ℕ) (stack : OpenStack) (outer : Option (List Region × OpenStack))
    → Spells stack outer
    → Spells (o ∷ stack) (end_inner (end_region o (length stack) line false) outer)
end_inner-Spells o line stack none h = tt
end_inner-Spells o line stack (some (ended, left)) h = ap (◌∷◌ (o.kind, o.first)) h

pub close-Spells :
    (kind : Text) (line : ℕ) (stack : OpenStack) → Spells stack (close kind line stack)
unfolding close
close-Spells kind line [] = tt
close-Spells kind line (o ∷ stack) = elim (Bool-cases (equal o.kind kind)) [
  | inl e ↦ rw e refl
  | inr e ↦
      rw e (end_inner-Spells o line stack (close kind line stack) (close-Spells kind line stack))
]

pub close_all-keys :
    (line : ℕ) (stack : OpenStack) → region_keys (close_all line stack) ≡ open_keys stack
unfolding close_all
close_all-keys line [] = refl
close_all-keys line (o ∷ stack) = ap (◌∷◌ (o.kind, o.first)) (close_all-keys line stack)

abbrev pub held : List Region × OpenStack → List Key
held (out, stack) = region_keys out ++ open_keys stack

pub after_end-held :
    (out : List Region) (stack : OpenStack) (r : Option (List Region × OpenStack))
    → Spells stack r
    → held (after_end (out, stack) r) ≡ held (out, stack)
after_end-held out stack none h = refl
after_end-held out stack (some (ended, left)) h = rw (region_keys-append, append_assoc, h)

pub pair_role-perm :
    (out : List Region) (stack : OpenStack) (m : Marker) (role : Role)
    → Perm (held (pair_role (out, stack) m role)) (start_key m role (held (out, stack)))
pair_role-perm out stack m start = perm_middle (region_keys out) (open_keys stack)
pair_role-perm out stack m finish =
    rw (after_end-held out stack (close m.kind m.line stack) (close-Spells m.kind m.line stack))
      Perm.rfl

pub start_key-perm :
    (m : Marker) (role : Role) (xs ys zs : List Key)
    → Perm xs (start_key m role ys)
    → Perm (zs ++ xs) (start_key m role zs ++ ys)
start_key-perm m start xs ys zs p = Perm.trans (Perm.append_left zs p) (perm_middle zs ys)
start_key-perm m finish xs ys zs p = Perm.append_left zs p

pub pair_all-perm :
    (ms : List Marker) (state : List Region × OpenStack)
    → Perm (held (pair_all state ms)) (start_keys ms ++ held state)
unfolding pair_all pair
pair_all-perm [] state = Perm.rfl
pair_all-perm (m ∷ ms) (out, stack) =
    Perm.trans (pair_all-perm ms (pair_role (out, stack) m m.role))
      (start_key-perm m m.role _ _ (start_keys ms) (pair_role-perm out stack m m.role))

pub paired-perm :
    (ms : List Marker) (line : ℕ) → Perm (region_keys (paired ms line)) (start_keys ms)
unfolding paired
paired-perm ms line =
    rw (region_keys-append, close_all-keys)
      (rw (append-nil (start_keys ms)) at (pair_all-perm ms ([], [])))
