-- ===== src/Lifecycle/Holders.antt =====
-- The reference count of `GatewayGeneration` of pcc_gateway/lifecycle.py.
use pcc_gateway.Prelude.{
  err, Bool, ap, ◌∙◌, ◌++◌, map, reverse, ℕ, suc, ◌+◌, ◌-◌, ◌≡◌, refl, true, false, ◌&&◌, List, [],
  Option, none, some, ◌==◌, if◌then◌else◌, ok, arith,
}
use pcc_gateway.Lifecycle.Generation.{
  Generation, Provider, Call, retain, drop_reference, release_failed, released, release_locked,
  retire_locked, leave, release, retire, attachable, attach_resource,
}
use pcc_gateway.Lifecycle.Cleanup.{returns_all, release_taken-all}

-- A generation with this many holders: the calls of `retain` that no `release` answered yet.
pub data Held (p : Provider) : ℕ → Generation → Type 0 where
  fresh :
      (id config : ℕ) (resources : List ℕ)
      → Held p 0 (record {
        generation_id = id;
        config = config;
        resources = resources;
        references = 1;
        retired = false;
        is_released = false;
      })
  retained : (h : ℕ) (g g' : Generation) → Held p h g → retain g ≡ ok g' → Held p (suc h) g'
  dropped :
      (h : ℕ) (g g' : Generation) (taken : Option (List ℕ))
      → Held p (suc h) g
      → release_locked g ≡ ok (g', taken)
      → Held p h g'
  retired :
      (h : ℕ) (g g' : Generation) (taken : Option (List ℕ))
      → Held p h g
      → retire_locked g ≡ ok (g', taken)
      → Held p h g'
  attached :
      (h resource : ℕ) (before g : Generation) (log : List Call)
      → Held p h g
      → Held p h (attach_resource p resource before g log).1

-- The publication itself is one reference until it is retired.
record Counted (h : ℕ) (g : Generation) : Type 0 where
  references : g.references ≡ (if g.retired then h else h + 1)
  empty : g.is_released ≡ (g.references == 0)

attach-Counted :
    (p : Provider) (h resource : ℕ) (before g : Generation) (log : List Call)
    → Counted h g
    → Counted h (attach_resource p resource before g log).1
unfolding attach_resource attachable
attach-Counted p h resource before g log c = ground arith

Held-Counted : (p : Provider) (h : ℕ) (g : Generation) → Held p h g → Counted h g
unfolding retain release_locked retire_locked drop_reference
Held-Counted p h g (fresh id config resources) = record { references = refl; empty = refl }
Held-Counted p h g (retained k g0 g' held e) =
    let c = Held-Counted p k g0 held in
    let r = c.references in
    let f = c.empty in record { references = ground arith; empty = ground arith }
Held-Counted p h g (dropped k g0 g' taken held e) =
    let c = Held-Counted p (suc k) g0 held in
    let r = c.references in
    let f = c.empty in record { references = ground arith; empty = ground arith }
Held-Counted p h g (retired k g0 g' taken held e) =
    let c = Held-Counted p k g0 held in
    let r = c.references in
    let f = c.empty in record { references = ground arith; empty = ground arith }
Held-Counted p h g (attached k resource before g0 log held) =
    attach-Counted p k resource before g0 log (Held-Counted p k g0 held)

-- What a method returns once the locked part has dropped a reference: `last` says whether it took the
-- resources out.
leave-dropped :
    (p : Provider) (last : Bool) (g now kept : Generation) (resources : List ℕ) (log : List Call)
    → leave p g (ok (if last then (now, some resources) else (kept, none))) log ≡ (
        if last
        then (
          log ++ map released (reverse resources),
          now,
          if returns_all p (reverse resources) log then ok 1 else err release_failed,
        )
        else (log, kept, ok 0))
unfolding leave
leave-dropped p true g now kept resources log =
    ap (λ r. (r.0, now, r.1)) (release_taken-all p resources log)
leave-dropped p false g now kept resources log = refl

release_locked-Held :
    (p : Provider) (h : ℕ) (g : Generation)
    → Held p (suc h) g
    → release_locked g
      ≡ ok (
          if g.retired && h == 0
          then (record g { references = 0; is_released = true; resources = [] }, some g.resources)
          else (record g { references = g.references - 1 }, none))
unfolding release_locked drop_reference
release_locked-Held p h g held =
    let c = Held-Counted p (suc h) g held in let r = c.references in let f = c.empty in ground arith

retire_locked-Held :
    (p : Provider) (h : ℕ) (g : Generation)
    → Held p h g
    → g.retired ≡ false
    → retire_locked g
      ≡ ok (
          if h == 0
          then (
            record g { retired = true; references = 0; is_released = true; resources = [] },
            some g.resources,
          )
          else (record g { retired = true; references = g.references - 1 }, none))
unfolding retire_locked drop_reference
retire_locked-Held p h g held e =
    let c = Held-Counted p h g held in let r = c.references in let f = c.empty in ground arith

-- A generation that `suc h` holders keep is not released. When one of them releases it, the call returns 0
-- and only drops the reference, unless the generation is retired and there is no other holder: then it also
-- releases every resource, the newest first, and it returns 1 if each of these releases returns, and
-- raises otherwise.
pub Held-release :
    (p : Provider) (h : ℕ) (g : Generation) (log : List Call)
    → Held p (suc h) g
    → (g.is_released ≡ false)
      × (release p g log ≡ (
          if g.retired && h == 0
          then (
            log ++ map released (reverse g.resources),
            record g { references = 0; is_released = true; resources = [] },
            if returns_all p (reverse g.resources) log then ok 1 else err release_failed,
          )
          else (log, record g { references = g.references - 1 }, ok 0)))
unfolding release
Held-release p h g log held =
    let c = Held-Counted p (suc h) g held in
    let r = c.references in
    let f = c.empty in
    (
      ground arith,
      ap (λ x. leave p g x log) (release_locked-Held p h g held)
          ∙ leave-dropped p (g.retired && h == 0) g _ _ g.resources log,
    )

-- A generation that is not retired takes a new holder whatever its holders were. Its first retirement returns
-- 0 and only drops the publication's reference, unless there is no holder: then it also releases every
-- resource, the newest first, and it returns 1 if each of these releases returns, and raises otherwise.
pub Held-retire :
    (p : Provider) (h : ℕ) (g : Generation) (log : List Call)
    → Held p h g
    → g.retired ≡ false
    → (retain g ≡ ok (record g { references = g.references + 1 }))
      × (retire p g log ≡ (
          if h == 0
          then (
            log ++ map released (reverse g.resources),
            record g { retired = true; references = 0; is_released = true; resources = [] },
            if returns_all p (reverse g.resources) log then ok 1 else err release_failed,
          )
          else (log, record g { retired = true; references = g.references - 1 }, ok 0)))
unfolding retain retire
Held-retire p h g log held e =
    let c = Held-Counted p h g held in
    let r = c.references in
    let f = c.empty in
    (
      ground arith,
      ap (λ x. leave p g x log) (retire_locked-Held p h g held e)
          ∙ leave-dropped p (h == 0) g _ _ g.resources log,
    )
