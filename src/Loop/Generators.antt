-- ===== src/Loop/Generators.antt =====
-- `_asyncgen_firstiter`, `_asyncgen_finalizer` and `shutdown_asyncgens` of `_base.py`.
use zuvloop.Base.{
  refl, ap, ℕ, ◌≡◌, Bool, true, false, Option, none, some, List, [], ◌∷◌, ◌++◌, has, discard,
  if◌then◌else◌, Exception, Result, ok, err,
}

-- The set of generators, which are numbers, and those whose `aclose` was handed to the loop.
pub record Generators : Type 0 where
  pub is_closed : Bool
  pub shutdown_called : Bool
  pub asyncgens : List ℕ
  pub handed : List ℕ

abbrev pub add : ℕ → List ℕ → List ℕ
add g gens = if has g gens then gens else g ∷ gens

abbrev pub warned : Result (Unit {0}) → ℕ → Generators → Result (Unit {0}) × Generators
warned (err e) g s = (err e, s)
warned (ok _) g s = (ok tt, record s { asyncgens = add g s.asyncgens })

-- `_asyncgen_firstiter`; a warning can be made to raise.
unfoldable pub asyncgen_firstiter :
    Result (Unit {0}) → ℕ → Generators → Result (Unit {0}) × Generators
asyncgen_firstiter warn g s = warned (if s.shutdown_called then warn else ok tt) g s

abbrev pub hand_over : Bool → Result (Unit {0}) → ℕ → Generators → Result (Unit {0}) × Generators
hand_over true call g s = (ok tt, s)
hand_over false (ok _) g s = (ok tt, record s { handed = g ∷ s.handed })
hand_over false (err e) g s = (err e, s)

-- `_asyncgen_finalizer`
unfoldable pub asyncgen_finalizer :
    Result (Unit {0}) → ℕ → Generators → Result (Unit {0}) × Generators
asyncgen_finalizer call g s =
    hand_over s.is_closed call g (record s { asyncgens = discard g s.asyncgens })

-- `shutdown_asyncgens` up to its await: what it closes.
unfoldable pub begin_asyncgens : Generators → List ℕ × Generators
begin_asyncgens s = (s.asyncgens, record s { shutdown_called = true; asyncgens = [] })

-- `call_exception_handler` on one generator, which can raise, and the reports that were made.
abbrev pub reported_one :
    Result (Unit {0})
    → ℕ × Exception
    → Result (Unit {0}) × List (ℕ × Exception)
    → Result (Unit {0}) × List (ℕ × Exception)
reported_one (err e) report later = (err e, report ∷ [])
reported_one (ok _) report (r, reports) = (r, report ∷ reports)

abbrev pub report_one :
    (ℕ × Exception → Result (Unit {0}))
    → ℕ
    → Option Exception
    → Result (Unit {0}) × List (ℕ × Exception)
    → Result (Unit {0}) × List (ℕ × Exception)
report_one handler g none later = later
report_one handler g (some e) later = reported_one (handler (g, e)) (g, e) later

-- The loop over the results: each generator with the exception that its `aclose` raised, if any.
unfoldable pub end_asyncgens :
    (ℕ × Exception → Result (Unit {0}))
    → List (ℕ × Option Exception)
    → Result (Unit {0}) × List (ℕ × Exception)
end_asyncgens handler [] = (ok tt, [])
end_asyncgens handler ((g, result) ∷ rest) =
    report_one handler g result (end_asyncgens handler rest)

-- The generators whose `aclose` raised.
abbrev pub failures : List (ℕ × Option Exception) → List (ℕ × Exception)
failures [] = []
failures ((g, none) ∷ rest) = failures rest
failures ((g, some e) ∷ rest) = (g, e) ∷ failures rest

-- All failures are reported, or the first of them up to a report that raises.
abbrev pub Reports : List (ℕ × Exception) → Result (Unit {0}) × List (ℕ × Exception) → Type 0
Reports all (ok u, reports) = reports ≡ all
Reports all (err e, reports) = (rest : List (ℕ × Exception)) × (reports ++ rest ≡ all)

reported_one-Reports :
    (r : Result (Unit {0})) (report : ℕ × Exception) (all : List (ℕ × Exception))
    (later : Result (Unit {0}) × List (ℕ × Exception))
    → Reports all later
    → Reports (report ∷ all) (reported_one r report later)
reported_one-Reports (err e) report all later h = (all, refl)
reported_one-Reports (ok u) report all (ok v, reports) h = ap (λ l. report ∷ l) h
reported_one-Reports (ok u) report all (err e, reports) (rest, h) = (rest, ap (λ l. report ∷ l) h)

-- `shutdown_asyncgens` reports each generator whose `aclose` raised, once and in order, and stops only at a report
-- that raises.
pub end_asyncgens-Reports :
    (handler : ℕ × Exception → Result (Unit {0})) (results : List (ℕ × Option Exception))
    → Reports (failures results) (end_asyncgens handler results)
unfolding end_asyncgens
end_asyncgens-Reports handler [] = refl
end_asyncgens-Reports handler ((g, none) ∷ rest) = end_asyncgens-Reports handler rest
end_asyncgens-Reports handler ((g, some e) ∷ rest) =
    reported_one-Reports (handler (g, e)) (g, e) (failures rest) (end_asyncgens handler rest)
      (end_asyncgens-Reports handler rest)
