-- ===== src/Lifecycle/Cleanup.antt =====
-- The calls that a resources' provider receives from pcc_gateway/lifecycle.py, errors included.
use mathlib.Core.List.{append_assoc, append-nil, map-append, reverse-cons, reverse-reverse}
use pcc_gateway.Prelude.{
  ℕ, ◌≡◌, refl, sym, ap, Bool, true, ◌&&◌, if◌then◌else◌, subst, ◌∙◌, List, [], ◌∷◌, ◌++◌, map,
  reverse, some, Result, ok, err, Result-cases, Option-cases, inl, inr,
}
use pcc_gateway.Lifecycle.Generation.{
  LifecycleError, release_failed, Generation, Provider, Call, retained, released, release_all,
  release_resources, release_taken, retain_all, new_generation,
}

-- Every resource is released, in the order of the list, whatever raises.
release_all-calls :
    (p : Provider) (rs : List ℕ) (log : List Call)
    → (release_all p rs log).0 ≡ log ++ map released rs
unfolding release_all
release_all-calls p [] log = sym (append-nil log)
release_all-calls p (r ∷ rs) log =
    release_all-calls p rs (log ++ released r ∷ [])
    ∙ append_assoc log (released r ∷ []) (map released rs)

-- Whether the provider returns from each release of the list, after the calls before it.
abbrev pub returns_all : Provider → List ℕ → List Call → Bool
returns_all p [] log = true
returns_all p (r ∷ rs) log = p.release log r && returns_all p rs (log ++ released r ∷ [])

release_all-returns_all :
    (p : Provider) (rs : List ℕ) (log : List Call) → (release_all p rs log).1 ≡ returns_all p rs log
unfolding release_all
release_all-returns_all p [] log = refl
release_all-returns_all p (r ∷ rs) log =
    ap (λ b. p.release log r && b) (release_all-returns_all p rs (log ++ released r ∷ []))

-- The calls and the result of the release of a generation's resources.
pub release_taken-all :
    (p : Provider) (resources : List ℕ) (log : List Call)
    → release_taken p (some resources) log ≡ (
      log ++ map released (reverse resources),
      if returns_all p (reverse resources) log then ok 1 else err release_failed,
    )
unfolding release_taken release_resources
release_taken-all p resources log =
    rw
      (
        release_all-calls p (reverse resources) log,
        release_all-returns_all p (reverse resources) log,
      )
      refl

-- What a construction did: it retained the handles of all resources, or it released the handles that it
-- had, the newest first, and raised.
pub data Construction (log : List Call) : List Call → Result LifecycleError (List ℕ) → Type 0 where
  complete : (handles : List ℕ) → Construction log (log ++ map retained handles) (ok handles)
  undone :
      (handles : List ℕ) (e : LifecycleError)
      → Construction log (log ++ map retained handles ++ map released (reverse handles)) (err e)

-- The newest handle stands at the end of the log, and first in the list.
undone-kept :
    (base : List Call) (kept : List ℕ) (e : LifecycleError)
    → Construction base (base ++ map retained (reverse kept) ++ map released kept) (err e)
undone-kept base kept e =
    subst (λ ks. Construction base (base ++ map retained (reverse kept) ++ map released ks) (err e))
      (reverse-reverse kept) (undone (reverse kept) e)

retain_all-Construction :
    (p : Provider) (base : List Call) (rs kept : List ℕ) (log : List Call)
    → log ≡ base ++ map retained (reverse kept)
    → Construction base (retain_all p rs kept log).0 (retain_all p rs kept log).1
unfolding retain_all
retain_all-Construction p base [] kept log n = rw (n) (complete (reverse kept))
retain_all-Construction p base (r ∷ rs) kept log n = elim (Option-cases (p.retain log r)) [
  | inr (handle, e) ↦
      rw (e, retain_all)
        (retain_all-Construction p base rs (handle ∷ kept) (log ++ retained handle ∷ [])
          (rw (n, reverse-cons handle kept, map-append, append_assoc) refl))
  | inl e ↦ rw (e, retain_all) (rw (release_all-calls p kept log, n) (undone-kept base kept _))
]

abbrev pub handles_of : Result LifecycleError Generation → Result LifecycleError (List ℕ)
handles_of (err e) = err e
handles_of (ok g) = ok g.resources

-- The construction of a generation calls the provider in one of two ways: it retains handles, which are
-- the resources of the generation, and releases none; or it raises, and has released exactly the handles
-- that it retained, the newest first, whatever releases raise.
pub new_generation-Construction :
    (p : Provider) (id config : ℕ) (resources : List ℕ) (log : List Call)
    → Construction log
        (new_generation p id config resources log).0
        (handles_of (new_generation p id config resources log).1)
unfolding new_generation
new_generation-Construction p id config resources log =
    elim (Result-cases (retain_all p resources [] log).1) [
      | inl (handles, e) ↦
          rw (e, new_generation)
            (rw (← e) (retain_all-Construction p log resources [] log (sym (append-nil log))))
      | inr (x, e) ↦
          rw (e, new_generation)
            (rw (← e) (retain_all-Construction p log resources [] log (sym (append-nil log))))
    ]
