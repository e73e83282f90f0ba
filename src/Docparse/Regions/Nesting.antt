-- ===== src/Docparse/Regions/Nesting.antt =====
-- The loop over the markers keeps its regions apart or nested.
use docz.Prelude.{
  ℕ, suc, ◌≤◌, inl, none, some, List, [], ◌∷◌, ◌++◌, arith, length, All, All-append, All-weaken,
}
use docz.Prelude.Pairs.{AllPairs, AllPairs-append}
use docz.Text.{Text}
use docz.Docparse.Markers.{Role, start, finish, Marker}
use docz.Docparse.Markers.Order.{Before, Between}
use docz.Docparse.Regions.{
  Region, OpenRegion, OpenStack, close, after_end, pair_role, pair, pair_all,
}
use docz.Docparse.Regions.Stack.{
  EachOpen, EachOpen-weaken, EachOpen-both, Outcome, Leaves, Ends, close-Leaves, close-EachOpen,
  Ending, close-Ends,
}
use docz.Docparse.Regions.Laminar.{
  Between-Before, Laminar, Below, IsOrdered, Clear, AllClear, Finished, Opened, IsValid,
  Laminar-end, EndsApart, EndsClear, close-EndsApart, close-EndsClear, All-swap,
}

IsValid-weaken :
    (n k : ℕ) (out : List Region) (stack : OpenStack)
    → n ≤ k
    → IsValid n out stack
    → IsValid k out stack
IsValid-weaken n k out stack le v = record {
  finished = All-weaken (Finished n) (Finished k) (λ r h. (h.0, h.1, omega arith)) out v.finished;
  apart = v.apart;
  opened = EachOpen-weaken (Opened n) (Opened k) (λ o d h. (h.0, omega arith)) stack v.opened;
  ordered = v.ordered;
  clear = v.clear;
}

-- Every entry of the stack is less deep than its height, and older than a new line.
Below-push :
    (n d : ℕ) (o : OpenRegion) (stack : OpenStack)
    → n ≤ o.first
    → length stack ≤ d
    → EachOpen (Opened n) stack
    → EachOpen (Below o d) stack
Below-push n d o [] le deep h = tt
Below-push n d o (p ∷ stack) le deep (h, k) =
    ((omega arith, omega arith), Below-push n d o stack le (omega arith) k)

IsValid-start :
    (n : ℕ) (out : List Region) (stack : OpenStack) (m : Marker)
    → 1 ≤ m.line
    → n ≤ m.line
    → IsValid n out stack
    → IsValid (suc m.line) out (record { kind = m.kind; first = m.line } ∷ stack)
IsValid-start n out stack m one le v =
    let w = IsValid-weaken n (suc m.line) out stack (omega arith) v in
    let o : OpenRegion = record { kind = m.kind; first = m.line } in
    record {
      finished = w.finished;
      apart = w.apart;
      opened = ((one, omega arith), w.opened);
      ordered = (Below-push n (length stack) o stack le (omega arith) v.opened, v.ordered);
      clear = (
        All-weaken (Finished n) (λ r. Clear r o (length stack)) (λ r h. inl (omega arith)) out
            v.finished,
        v.clear,
      );
    }

IsValid-ended :
    (n line : ℕ) (out : List Region) (stack : OpenStack) (r : Outcome)
    → n ≤ line
    → IsValid n out stack
    → Ends (All (λ e. All (λ x. Laminar x e) out)) r
    → Ends (All (Finished (suc line))) r
    → EndsApart r
    → EndsClear r
    → Leaves (EachOpen (Opened n)) r
    → Leaves IsOrdered r
    → Leaves (EachOpen (AllClear out)) r
    → IsValid (suc line) (after_end (out, stack) r).0 (after_end (out, stack) r).1
IsValid-ended n line out stack none le v across done apart clear op ord cl =
    IsValid-weaken n (suc line) out stack (omega arith) v
IsValid-ended n line out stack (some (ended, left)) le v across done apart clear op ord cl =
    let w = IsValid-weaken n (suc line) out stack (omega arith) v in
    record {
      finished = All-append (Finished (suc line)) out ended w.finished done;
      apart = AllPairs-append Laminar out ended v.apart apart (All-swap out ended across);
      opened = EachOpen-weaken (Opened n) (Opened (suc line)) (λ o d h. (h.0, omega arith)) left op;
      ordered = ord;
      clear =
          EachOpen-both (AllClear out) (AllClear ended) (AllClear (out ++ ended))
            (λ o d h k. All-append (λ r. Clear r o d) out ended h k) left cl clear;
    }

IsValid-finish :
    (n : ℕ) (out : List Region) (stack : OpenStack) (kind : Text) (line : ℕ)
    → n ≤ line
    → IsValid n out stack
    → IsValid
        (suc line)
        (after_end (out, stack) (close kind line stack)).0
        (after_end (out, stack) (close kind line stack)).1
IsValid-finish n out stack kind line le v =
    IsValid-ended n line out stack (close kind line stack) le v
      (close-Ends (λ e. All (λ x. Laminar x e) out) kind line stack
        (EachOpen-weaken (AllClear out) (Ending (λ e. All (λ x. Laminar x e) out) line)
          (λ o d h c. Laminar-end n line out o d c (omega arith) v.finished h) stack v.clear))
      (close-Ends (Finished (suc line)) kind line stack (
        EachOpen-weaken (Opened n) (Ending (Finished (suc line)) line)
          (λ o d h c. (h.0, omega arith, omega arith)) stack v.opened))
      (close-EndsApart kind line stack v.ordered) (close-EndsClear kind line stack v.ordered)
      (close-EachOpen (Opened n) kind line stack v.opened)
      (close-Leaves IsOrdered (λ o s h. h.1) kind line stack v.ordered)
      (close-EachOpen (AllClear out) kind line stack v.clear)

abbrev Holds : ℕ → List Region × OpenStack → Type 0
Holds n state = IsValid n state.0 state.1

pair_role-IsValid :
    (n : ℕ) (state : List Region × OpenStack) (m : Marker) (role : Role)
    → 1 ≤ m.line
    → n ≤ m.line
    → Holds n state
    → Holds (suc m.line) (pair_role state m role)
pair_role-IsValid n (out, stack) m start one le v = IsValid-start n out stack m one le v
pair_role-IsValid n (out, stack) m finish one le v = IsValid-finish n out stack m.kind m.line le v

pub pair_all-IsValid :
    (n hi : ℕ) (state : List Region × OpenStack) (ms : List Marker)
    → 1 ≤ n
    → n ≤ hi
    → All (Between n hi) ms
    → AllPairs Before ms
    → Holds n state
    → Holds hi (pair_all state ms)
unfolding pair_all pair
pair_all-IsValid n hi state [] one le b p v = IsValid-weaken n hi state.0 state.1 le v
pair_all-IsValid n hi state (m ∷ ms) one le (b, bs) (p, ps) v =
    pair_all-IsValid (suc m.line) hi (pair_role state m m.role) ms (omega arith) b.1
      (Between-Before m hi n ms bs p) ps (pair_role-IsValid n state m m.role (omega arith) b.0 v)

pub new-IsValid : IsValid 1 [] []
new-IsValid = record { finished = tt; apart = tt; opened = tt; ordered = tt; clear = tt }
