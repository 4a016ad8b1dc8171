-- ===== src/Lifecycle/Generation.antt =====
-- `GatewayGeneration` of pcc_gateway/lifecycle.py. The resources are handles of a provider that is no
-- part of the gateway; the calls that it receives are kept in their order. A method holds the owner
-- lock while it changes the generation, so that part is one step on it; the resources that it takes out
-- are released after the lock, and the methods end with what these releases raise.
use pcc_gateway.Prelude.{
  ℕ, ◌+◌, ◌-◌, Bool, true, false, not, ◌&&◌, ◌||◌, List, [], ◌∷◌, ◌++◌, Option, none, some, ◌==◌,
  if◌then◌else◌, reverse, Result, ok, err,
}

-- The exceptions of pcc_gateway/lifecycle.py, one for each message.
pub data LifecycleError : Type 0 where
  retain_released attach_published attach_cleanup_failed retired_twice released_twice :
      LifecycleError
  provider_error construction_cleanup_failed release_failed : LifecycleError
  negative_limit unknown_label : LifecycleError
  started_twice not_starting not_accepting publish_not_running publish_concurrent : LifecycleError
  publish_lost connection_underflow request_underflow queue_underflow upstream_underflow :
      LifecycleError
  reservation_negative reservation_range cannot_drain not_draining : LifecycleError

-- A call that the provider received.
pub data Call : Type 0 where
  retained released : ℕ → Call

-- The provider's callbacks may raise, as they choose after the calls before: `retain` returns the
-- handle to keep, `none` if it raised, and `release` whether it returned.
pub record Provider : Type 0 where
  pub retain : List Call → ℕ → Option ℕ
  pub release : List Call → ℕ → Bool

pub record Generation : Type 0 where
  pub generation_id : ℕ
  pub config : ℕ
  pub resources : List ℕ
  pub references : ℕ
  pub retired : Bool
  pub is_released : Bool

module _ (p : Provider) where
  -- Releases every resource of a list, whatever raises; the flag is false after an error.
  unfoldable pub release_all : List ℕ → List Call → List Call × Bool
  release_all [] log = (log, true)
  release_all (r ∷ rs) log =
      let later = release_all rs (log ++ released r ∷ []) in (later.0, p.release log r && later.1)

  -- `_release_resources`: from the last to the first.
  unfoldable pub release_resources : List ℕ → List Call → List Call × Result LifecycleError ℕ
  unfolding release_all
  release_resources resources log =
      let (log', fine) = release_all (reverse resources) log in
      (log', if fine then ok 1 else err release_failed)

  -- The loop of the constructor: `kept` are the handles retained so far, the newest first. After an
  -- error they are released again, the newest first.
  unfoldable pub retain_all :
      List ℕ → List ℕ → List Call → List Call × Result LifecycleError (List ℕ)
  unfolding release_all
  retain_all [] kept log = (log, ok (reverse kept))
  retain_all (r ∷ rs) kept log = elim (p.retain log r) [
    | some handle ↦ retain_all rs (handle ∷ kept) (log ++ retained handle ∷ [])
    | none ↦
        let (log', fine) = release_all kept log in
        (log', err (if fine then provider_error else construction_cleanup_failed))
  ]

  -- `GatewayGeneration(generation_id, config, resources)`
  unfoldable pub new_generation :
      ℕ → ℕ → List ℕ → List Call → List Call × Result LifecycleError Generation
  unfolding retain_all
  new_generation id config resources log =
      let (log', kept) = retain_all resources [] log in
      (
        log',
        elim kept [
          | err e ↦ err e
          | ok handles ↦ ok (record {
            generation_id = id;
            config = config;
            resources = handles;
            references = 1;
            retired = false;
            is_released = false;
          })
        ],
      )

  -- The resources to release, if any, are released after the lock.
  unfoldable pub release_taken : Option (List ℕ) → List Call → List Call × Result LifecycleError ℕ
  unfolding release_resources
  release_taken none log = (log, ok 0)
  release_taken (some resources) log = release_resources resources log

-- `_retain_locked`
unfoldable pub retain : Generation → Result LifecycleError Generation
retain g =
    if g.is_released then err retain_released else ok (record g { references = g.references + 1 })

-- Drops one reference; the last one takes the resources out.
unfoldable pub drop_reference : Generation → Generation × Option (List ℕ)
drop_reference g =
    if g.references == 1
    then (record g { references = 0; is_released = true; resources = [] }, some g.resources)
    else (record g { references = g.references - 1 }, none)

-- The locked part of `release`.
unfoldable pub release_locked : Generation → Result LifecycleError (Generation × Option (List ℕ))
unfolding drop_reference
release_locked g =
    if g.is_released || g.references == 0 then err released_twice else ok (drop_reference g)

-- The locked part of `retire`.
unfoldable pub retire_locked : Generation → Result LifecycleError (Generation × Option (List ℕ))
unfolding drop_reference
retire_locked g =
    if g.retired
    then err retired_twice
    else if g.is_released || g.references == 0
    then err released_twice
    else ok (drop_reference (record g { retired = true }))

-- What a method leaves: the provider's calls, the generation, and what is returned or raised.
abbrev pub Ended : Type 0
Ended = List Call × Generation × Result LifecycleError ℕ

-- The end of both, after the lock: an error of the locked part, or the release of what it took out.
unfoldable pub leave :
    Provider → Generation → Result LifecycleError (Generation × Option (List ℕ)) → List Call → Ended
unfolding release_taken
leave p g (err e) log = (log, g, err e)
leave p g (ok (now, taken)) log =
    let (log', result) = release_taken p taken log in (log', now, result)

-- `release`: 1 if it was the last reference, and 0 otherwise.
unfoldable pub release : Provider → Generation → List Call → Ended
unfolding release_locked leave
release p g log = leave p g (release_locked g) log

-- `retire`
unfoldable pub retire : Provider → Generation → List Call → Ended
unfolding retire_locked leave
retire p g log = leave p g (retire_locked g) log

unfoldable pub attachable : Generation → Bool
attachable g = not g.retired && not g.is_released && g.references == 1

-- `attach_resource` between its two locked parts: the generation may have changed from `g` to `now`.
unfoldable pub attach_resource :
    Provider
    → ℕ
    → Generation
    → Generation
    → List Call
    → List Call × Generation × Result LifecycleError (Unit {0})
unfolding attachable
attach_resource p resource g now log =
    if not (attachable g) then (log, now, err attach_published) else elim (p.retain log resource) [
      | none ↦ (log, now, err provider_error)
      | some handle ↦
          let log' = log ++ retained handle ∷ [] in
          if attachable now
          then (log', record now { resources = now.resources ++ handle ∷ [] }, ok tt)
          else (
            log' ++ released handle ∷ [],
            now,
            err (if p.release log' handle then attach_published else attach_cleanup_failed),
          )
    ]
