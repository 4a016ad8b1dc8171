-- ===== src/Lifecycle/Publish.antt =====
-- `publish` and `collect_retired` of `GatewayLifecycle` of pcc_gateway/lifecycle.py. `publish` holds the
-- owner lock in three separate parts, and calls the resources' provider between them without it: each
-- part is a function, so that other calls can come between them.
use pcc_gateway.Prelude.{
  ℕ, ◌+◌, ◌-◌, true, false, not, List, [], ◌∷◌, ◌++◌, Option, none, some, if◌then◌else◌, length,
  Result, ok, err,
}
use pcc_gateway.Lifecycle.Generation.{
  LifecycleError, publish_not_running, publish_concurrent, publish_lost, Generation, Provider,
  new_generation,
}
use pcc_gateway.Lifecycle.State.{Lifecycle, Outcome, put_generation, is_running, retire_generation}

-- The first locked part: claims the publication and a fresh id.
unfoldable pub claim : Lifecycle → Outcome ℕ
claim l =
    if not (is_running l.state)
    then (l, err publish_not_running)
    else if l.publishing
    then (l, err publish_concurrent)
    else (
      record l { publishing = true; next_generation_id = l.next_generation_id + 1 },
      ok l.next_generation_id,
    )

-- The construction of the replacement, outside the lock. An error gives the claim back.
unfoldable pub construct : Provider → ℕ → ℕ → List ℕ → Lifecycle → Outcome ℕ
construct p id config resources l =
    let (log, built) = new_generation p id config resources l.log in
    elim built [
      | err e ↦ (record l { log = log; publishing = false }, err e)
      | ok g ↦ (record (put_generation id g l) { log = log }, ok id)
    ]

-- The second locked part: the replacement becomes the current generation, and the previous one is
-- returned; `none` if the gateway has stopped running meanwhile.
unfoldable pub install : ℕ → Lifecycle → Lifecycle × Option ℕ
install id l =
    if is_running l.state
    then (
      record l { current = id; retired_generations = l.retired_generations ++ l.current ∷ [] },
      some l.current,
    )
    else (record l { publishing = false }, none)

unfoldable pub kept_generations : (ℕ → Generation) → List ℕ → List ℕ
kept_generations generations [] = []
kept_generations generations (id ∷ ids) =
    let rest = kept_generations generations ids in
    if (generations id).is_released then rest else id ∷ rest

-- The number of generations that are not kept any more.
unfoldable pub collect_retired : Lifecycle → Lifecycle × ℕ
unfolding kept_generations
collect_retired l =
    let kept = kept_generations l.generations l.retired_generations in
    (record l { retired_generations = kept }, length l.retired_generations - length kept)

-- After `previous.retire()`, whatever it raised: the claim is given back, and released generations
-- are forgotten.
unfoldable pub conclude : ℕ → Lifecycle × Result LifecycleError ℕ → Outcome ℕ
unfolding collect_retired
conclude id (l, result) =
    let (l', collected) = collect_retired (record l { publishing = false }) in
    (l', elim result [ err e ↦ err e | ok freed ↦ ok id ])

unfoldable pub discard : Provider → ℕ → Lifecycle → Outcome ℕ
unfolding retire_generation
discard p id l =
    let (l', result) = retire_generation p id l in
    (l', elim result [ err e ↦ err e | ok freed ↦ err publish_lost ])

-- The rest of `publish` after `install`.
unfoldable pub settle_previous : Provider → ℕ → Lifecycle × Option ℕ → Outcome ℕ
unfolding conclude discard retire_generation
settle_previous p id (l, none) = discard p id l
settle_previous p id (l, some previous) = conclude id (retire_generation p previous l)

-- `publish` with no other call between its parts. The id stands for the new generation.
unfoldable pub publish : Provider → ℕ → List ℕ → Lifecycle → Outcome ℕ
unfolding claim construct install settle_previous
publish p config resources l =
    let (l', claimed) = claim l in
    elim claimed [
      | err e ↦ (l', err e)
      | ok id ↦
          let (l'', built) = construct p id config resources l' in
          elim built [ err e ↦ (l'', err e) | ok id' ↦ settle_previous p id' (install id' l'') ]
    ]
