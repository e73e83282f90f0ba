-- ===== src/Tests/Json.antt =====
-- An encoding of pageProperty that is read back, in the place of encoding/json.
use docz.Prelude.{
  ℕ, zero, suc, ◌+◌, ◌-◌, ◌<◌, false, ◌≡◌, refl, ap, Option, none, some, List, [], ◌∷◌, arith, ◌==◌,
  if◌then◌else◌, length,
}
use docz.Text.{Text}
use docz.Confluence.Reconcile.{Anchor, PageProperty, Json}
use docz.Confluence.Reconcile.Settles.{ReadsBack}

-- A text, ended by 0, with each code raised by one.
abbrev put : Text → Text → Text
put [] rest = 0 ∷ rest
put (c ∷ t) rest = (c + 1) ∷ put t rest

abbrev cons_fst : {R : Type 0} → ℕ → Text × R → Text × R
cons_fst c (t, r) = (c ∷ t, r)

unfoldable pub got : Text → Text × Text
got [] = ([], [])
got (c ∷ s) = let later = got s in if c == 0 then ([], s) else cons_fst (c - 1) later

abbrev put_anchor : Anchor → Text → Text
put_anchor a rest = put a.ref (put a.quote (put a.prefix (put a.suffix (put a.heading rest))))

abbrev put_anchors : List Anchor → Text → Text
put_anchors [] rest = 0 ∷ rest
put_anchors (a ∷ anchors) rest = 1 ∷ put_anchor a (put_anchors anchors rest)

abbrev put_property : PageProperty → Text
put_property p =
    p.version
    ∷ put p.id (put p.source (put p.hash (put p.docz (put p.repo (put_anchors p.anchors [])))))

unfoldable pub got_anchors : ℕ → Text → List Anchor
got_anchors zero s = []
got_anchors (suc n) [] = []
got_anchors (suc n) (c ∷ s) =
    let (ref, s1) = got s in
    let (quote, s2) = got s1 in
    let (prefix, s3) = got s2 in
    let (suffix, s4) = got s3 in
    let (heading, s5) = got s4 in
    let later = got_anchors n s5 in
    if c == 0
    then []
    else record { ref = ref; quote = quote; prefix = prefix; suffix = suffix; heading = heading }
      ∷ later

unfoldable pub got_property : Text → Option PageProperty
got_property [] = none
got_property (version ∷ s) =
    let (id, s1) = got s in
    let (source, s2) = got s1 in
    let (hash, s3) = got s2 in
    let (docz, s4) = got s3 in
    let (repo, s5) = got s4 in
    some (record {
      id = id;
      source = source;
      hash = hash;
      version = version;
      docz = docz;
      repo = repo;
      anchors = got_anchors (length s5) s5;
    })

abbrev pub plain_json : Json
plain_json = record { marshal = put_property; unmarshal = got_property }

got-put : (t rest : Text) → got (put t rest) ≡ (t, rest)
unfolding got
got-put [] rest = refl
got-put (c ∷ t) rest = rw (got-put t rest, positive, back) refl
  where
    positive : (c + 1 == 0) ≡ false
    positive = ground arith

    back : c + 1 - 1 ≡ c
    back = omega arith

length-put : (t rest : Text) → length rest < length (put t rest)
length-put [] rest = omega arith
length-put (c ∷ t) rest = let ih = length-put t rest in omega arith

length-put_anchors : (anchors : List Anchor) → length anchors < length (put_anchors anchors [])
length-put_anchors [] = omega arith
length-put_anchors (a ∷ anchors) =
    let ih = length-put_anchors anchors in
    let rest = put_anchors anchors [] in
    let h5 = length-put a.heading rest in
    let h4 = length-put a.suffix (put a.heading rest) in
    let h3 = length-put a.prefix (put a.suffix (put a.heading rest)) in
    let h2 = length-put a.quote (put a.prefix (put a.suffix (put a.heading rest))) in
    let h1 = length-put a.ref (put a.quote (put a.prefix (put a.suffix (put a.heading rest)))) in
    omega arith

got_anchors-put :
    (n : ℕ) (anchors : List Anchor)
    → length anchors < n
    → got_anchors n (put_anchors anchors []) ≡ anchors
unfolding got_anchors
got_anchors-put zero anchors h = absurd (below_zero h)
  where
    below_zero : length anchors < 0 → ⊥
    below_zero k = omega arith
got_anchors-put (suc n) [] h = refl
got_anchors-put (suc n) (a ∷ anchors) h =
    let rest = put_anchors anchors [] in
    rw
      (
        got-put a.ref (put a.quote (put a.prefix (put a.suffix (put a.heading rest)))),
        got-put a.quote (put a.prefix (put a.suffix (put a.heading rest))),
        got-put a.prefix (put a.suffix (put a.heading rest)),
        got-put a.suffix (put a.heading rest),
        got-put a.heading rest,
      )
      (ap (λ l. a ∷ l) (got_anchors-put n anchors (omega arith)))

pub plain_json-ReadsBack : ReadsBack plain_json
unfolding got_property
plain_json-ReadsBack p =
    let s5 = put_anchors p.anchors [] in
    rw
      (
        got-put p.id (put p.source (put p.hash (put p.docz (put p.repo s5)))),
        got-put p.source (put p.hash (put p.docz (put p.repo s5))),
        got-put p.hash (put p.docz (put p.repo s5)),
        got-put p.docz (put p.repo s5),
        got-put p.repo s5,
        got_anchors-put (length s5) p.anchors (length-put_anchors p.anchors),
      )
      refl
