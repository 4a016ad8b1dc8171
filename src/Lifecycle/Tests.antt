-- ===== src/Lifecycle/Tests.antt =====
-- Tests of pcc_gateway/lifecycle.py, and the theorems at concrete inputs.
use pcc_gateway.Prelude.{
  ◌≡◌, ◌-◌, ◌+◌, ◌==◌, ◌&&◌, refl, [], ◌∷◌, ◌++◌, map, reverse, true, false, none, some, ok, err,
  if◌then◌else◌,
}
use pcc_gateway.Lifecycle.Generation.{
  Generation, Provider, release_failed, released, retain, retire_locked, release, retire,
  new_generation,
}
use pcc_gateway.Lifecycle.Metrics.{AdmissionLimits}
use pcc_gateway.Lifecycle.State
use pcc_gateway.Lifecycle.State.{Lifecycle}
use pcc_gateway.Lifecycle.Admission
use pcc_gateway.Lifecycle.Gauges.{InLimits}
use pcc_gateway.Lifecycle.Orders
use pcc_gateway.Lifecycle.Orders.{Reached, fresh, after, Reached-IsAdmissible}
use pcc_gateway.Lifecycle.Holders.{Held, Held-release, Held-retire}
use pcc_gateway.Lifecycle.Holders
use pcc_gateway.Lifecycle.Cleanup.{
  returns_all, Construction, handles_of, new_generation-Construction,
}

-- A provider that gives a resource back as its handle, and whose second release raises.
abbrev provider : Provider
provider = record {
  retain = λ log resource. if resource == 9 then none else some resource;
  release = λ log handle. if handle == 2 then false else true;
}

abbrev limits : AdmissionLimits
limits = record {
  max_connections = 1;
  max_requests = 1;
  max_queued_requests = 1;
  max_upstream_active = 1;
  max_buffered_bytes = 10;
}

abbrev after_start : Lifecycle
after_start = (State.start (State.new_lifecycle 0 limits)).0

abbrev after_started : Lifecycle
after_started = (State.started after_start).0

abbrev after_admission : Lifecycle
after_admission = (Admission.admit_connection after_started).0

Reached-IsAdmissible_example :
    InLimits limits after_admission.metrics after_admission.queued_requests
Reached-IsAdmissible_example = Reached-IsAdmissible provider 0 limits after_admission (
    after after_started after_admission
      (after after_start after_started
        (after (State.new_lifecycle 0 limits) after_start fresh Orders.start) Orders.started)
      Orders.admit_connection)

abbrev young : Generation
young = record {
  generation_id = 1;
  config = 0;
  resources = 5 ∷ [];
  references = 1;
  retired = false;
  is_released = false;
}

-- Retired, with one holder left: its release raises, since the second resource's does.
abbrev orphaned : Generation
orphaned = record young { resources = 1 ∷ 2 ∷ 3 ∷ []; retired = true }

abbrev published : Generation
published = record young { resources = 1 ∷ 2 ∷ 3 ∷ [] }

abbrev held : Generation
held = record published { references = 2 }

published_retained : retain published ≡ ok held
unfolding retain
published_retained = refl

held_retired : retire_locked held ≡ ok (orphaned, none)
unfolding retire_locked
held_retired = refl

failed_release : (release provider orphaned []).2 ≡ err release_failed
unfolding release
failed_release = refl

Held-release_example :
    (orphaned.is_released ≡ false)
    × (release provider orphaned [] ≡ (
        if orphaned.retired && 0 == 0
        then (
          [] ++ map released (reverse orphaned.resources),
          record orphaned { references = 0; is_released = true; resources = [] },
          if returns_all provider (reverse orphaned.resources) [] then ok 1 else err release_failed,
        )
        else ([], record orphaned { references = orphaned.references - 1 }, ok 0)))
Held-release_example = Held-release provider 0 orphaned [] (
    Holders.retired 1 held orphaned none
      (Holders.retained 0 published held (Holders.fresh 1 0 (1 ∷ 2 ∷ 3 ∷ [])) published_retained)
      held_retired)

Held-retire_example :
    (retain young ≡ ok (record young { references = young.references + 1 }))
    × (retire provider young [] ≡ (
        if 0 == 0
        then (
          [] ++ map released (reverse young.resources),
          record young { retired = true; references = 0; is_released = true; resources = [] },
          if returns_all provider (reverse young.resources) [] then ok 1 else err release_failed,
        )
        else ([], record young { retired = true; references = young.references - 1 }, ok 0)))
Held-retire_example = Held-retire provider 0 young [] (Holders.fresh 1 0 (5 ∷ [])) refl

new_generation-Construction_example :
    Construction []
      (new_generation provider 1 0 (1 ∷ 9 ∷ []) []).0
      (handles_of (new_generation provider 1 0 (1 ∷ 9 ∷ []) []).1)
new_generation-Construction_example = new_generation-Construction provider 1 0 (1 ∷ 9 ∷ []) []
