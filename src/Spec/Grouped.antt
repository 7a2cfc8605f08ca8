-- ===== src/Spec/Grouped.antt =====
-- internal/spec/infer.go, Add: the records of one operation, wherever they stand in the traffic.
use optictrace.Prelude.{
  Bool, true, ◌&&◌, Option, none, some, List, [], ◌∷◌, Text, lookup, insert, lookup-insert, beq,
  beq_iff, beq_refl, All, to_lower, if◌then◌else◌, ◌≡◌, refl, arith, Bool-cases, inl, inr, ◌∙◌, ap,
}
use optictrace.Floats.{Floats}
use optictrace.Config.Rules.{is_some}
use optictrace.Spec.Paths.{open_api_path}
use optictrace.Spec.Infer.{Record, Tally, Ops, Decoders, tally_of, methods_of, add_to, add, add_all}

unfoldable pub is_for : Text → Text → Record → Bool
is_for path method rec = beq (open_api_path rec.path) path && beq (to_lower rec.method) method

-- The records of an operation, in their order.
abbrev pub records_for : Text → Text → List Record → List Record
records_for path method [] = []
records_for path method (rec ∷ recs) =
    if is_for path method rec
    then rec ∷ records_for path method recs
    else records_for path method recs

module _ {F : Type 0} where
  unfoldable pub tally_at : Ops F → Text → Text → Option (Tally F)
  unfolding lookup
  tally_at all path method = lookup method (methods_of (lookup path all))

  tally_at-insert :
      (all : Ops F) (x y path method : Text) (t : Tally F)
      → tally_at (insert x (insert y t (methods_of (lookup x all))) all) path method
        ≡ (if beq x path && beq y method then some t else tally_at all path method)
  unfolding tally_at
  tally_at-insert all x y path method t = ground (
    arith,
    lookup-insert x path (insert y t (methods_of (lookup x all))) all,
    lookup-insert y method t (methods_of (lookup x all)),
    beq_iff x path,
  )

  module _ (ops : Floats F) (d : Decoders F) where
    tally_at-add :
        (all : Ops F) (rec : Record) (path method : Text)
        → tally_at (add ops d all rec) path method ≡ (
            if is_for path method rec
            then some (add_to ops d (tally_of (tally_at all path method)) rec)
            else tally_at all path method)
    unfolding tally_at add is_for
    tally_at-add all rec path method = ground (
      arith,
      beq_iff (open_api_path rec.path) path,
      beq_iff (to_lower rec.method) method,
      tally_at-insert all (open_api_path rec.path) (to_lower rec.method) path method (
          add_to ops d
            (tally_of
              (lookup (to_lower rec.method) (methods_of (lookup (open_api_path rec.path) all))))
            rec),
    )

    -- One operation by itself: the fold over its own records, and no operation without a record.
    abbrev pub tally_all : Option (Tally F) → List Record → Option (Tally F)
    tally_all t [] = t
    tally_all t (rec ∷ recs) = tally_all (some (add_to ops d (tally_of t) rec)) recs

    tally_at-grows :
        (all : Ops F) (recs : List Record) (path method : Text)
        → tally_at (add_all ops d all recs) path method
          ≡ tally_all (tally_at all path method) (records_for path method recs)
    unfolding add_all
    tally_at-grows all [] path method = refl
    tally_at-grows all (rec ∷ recs) path method = elim (Bool-cases (is_for path method rec)) [
      | inl e ↦
          rw (
            tally_at-grows (add ops d all rec) recs path method,
            tally_at-add all rec path method,
            e,
          )
      | inr e ↦
          rw (
            tally_at-grows (add ops d all rec) recs path method,
            tally_at-add all rec path method,
            e,
          )
    ]

    tally_at-empty : (path method : Text) → tally_at [] path method ≡ none
    unfolding tally_at lookup
    tally_at-empty path method = refl

    -- The record-at-a-time inference refines the grouping of the traffic: what it holds for a path
    -- and a method after all records is the fold over the records of that operation alone, in
    -- their order, and nothing if there is none.
    pub tally_at-add_all :
        (recs : List Record) (path method : Text)
        → tally_at (add_all ops d [] recs) path method
          ≡ tally_all none (records_for path method recs)
    tally_at-add_all recs path method =
        tally_at-grows [] recs path method
        ∙ ap (λ (t : Option (Tally F)). tally_all t (records_for path method recs))
            (tally_at-empty path method)

    -- An operation stays once there is a record of it.
    is_some-tally_all :
        (t : Tally F) (recs : List Record) → is_some (tally_all (some t) recs) ≡ true
    is_some-tally_all t [] = refl
    is_some-tally_all t (rec ∷ recs) = is_some-tally_all (add_to ops d t rec) recs

    abbrev pub HasTally : Ops F → Record → Type 0
    HasTally all rec = is_some (tally_at all (open_api_path rec.path) (to_lower rec.method)) ≡ true

    is_some-grown :
        (t : Option (Tally F)) (recs : List Record)
        → is_some t ≡ true
        → is_some (tally_all t recs) ≡ true
    is_some-grown none recs h = cc
    is_some-grown (some t) recs h = is_some-tally_all t recs

    HasTally-add_all :
        (all : Ops F) (recs : List Record) (rec : Record)
        → HasTally all rec
        → HasTally (add_all ops d all recs) rec
    HasTally-add_all all recs rec h =
        let p = open_api_path rec.path in
        let m = to_lower rec.method in
        rw (tally_at-grows all recs p m) (is_some-grown (tally_at all p m) (records_for p m recs) h)

    HasTally-add : (all : Ops F) (rec : Record) → HasTally (add ops d all rec) rec
    unfolding is_for
    HasTally-add all rec =
        let p = open_api_path rec.path in
        let m = to_lower rec.method in rw (tally_at-add all rec p m, beq_refl p, beq_refl m) refl

    pub All-HasTally :
        (all : Ops F) (recs : List Record) → All (HasTally (add_all ops d all recs)) recs
    unfolding add_all
    All-HasTally all [] = tt
    All-HasTally all (rec ∷ recs) = (
      HasTally-add_all (add ops d all rec) recs rec (HasTally-add all rec),
      All-HasTally (add ops d all rec) recs,
    )
