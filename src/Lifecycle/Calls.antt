-- ===== src/Lifecycle/Calls.antt =====
-- The admission methods of pcc_gateway/lifecycle.py and the limits of the gauges.
use pcc_gateway.Prelude.{
  ◌||◌, leb, ◌==◌, ℤ, pos, ◌+ℤ◌, leb_ℤ, ltb_ℤ, is_negative, arith, inl, inr, Bool-cases,
}
use pcc_gateway.Lifecycle.Metrics.{
  connections_active, requests_active, upstream_active, buffered_bytes,
}
use pcc_gateway.Lifecycle.State
use pcc_gateway.Lifecycle.State.{
  Lifecycle, Outcome, Phase, new, starting, running, draining, stopped, failed, settle,
}
use pcc_gateway.Lifecycle.Admission
use pcc_gateway.Lifecycle.Gauges.{Within-up, Within-down, Within-add, Within-sub, IsAdmissible}

pub admit_connection-IsAdmissible :
    (l : Lifecycle) → IsAdmissible l → IsAdmissible (Admission.admit_connection l).0
unfolding Admission.admit_connection
admit_connection-IsAdmissible l i = elim (Bool-cases (State.is_running l.state)) [
  | inr e ↦
      rw (e, Admission.admit_connection)
        (record {
          connections = i.connections;
          requests = i.requests;
          upstream = i.upstream;
          buffered = i.buffered;
          gauge = i.gauge;
          queue = i.queue;
        })
  | inl e ↦
      elim (Bool-cases (Admission.limit_reached l.limits.max_connections connections_active l)) [
        | inl f ↦
            rw (e, f, Admission.admit_connection)
              (record {
                connections = i.connections;
                requests = i.requests;
                upstream = i.upstream;
                buffered = i.buffered;
                gauge = i.gauge;
                queue = i.queue;
              })
        | inr f ↦
            rw (e, f, Admission.admit_connection)
              (record {
                connections = Within-up _ _ i.connections f;
                requests = i.requests;
                upstream = i.upstream;
                buffered = i.buffered;
                gauge = i.gauge;
                queue = i.queue;
              })
      ]
]

pub admit_request-IsAdmissible :
    (l : Lifecycle) → IsAdmissible l → IsAdmissible (Admission.admit_request l).0
unfolding Admission.admit_request
admit_request-IsAdmissible l i = elim (Bool-cases (State.is_running l.state)) [
  | inr e ↦
      rw (e, Admission.admit_request)
        (record {
          connections = i.connections;
          requests = i.requests;
          upstream = i.upstream;
          buffered = i.buffered;
          gauge = i.gauge;
          queue = i.queue;
        })
  | inl e ↦ elim (Bool-cases (Admission.limit_reached l.limits.max_requests requests_active l)) [
    | inl f ↦
        rw (e, f, Admission.admit_request)
          (record {
            connections = i.connections;
            requests = i.requests;
            upstream = i.upstream;
            buffered = i.buffered;
            gauge = i.gauge;
            queue = i.queue;
          })
    | inr f ↦
        rw (e, f, Admission.admit_request)
          (record {
            connections = i.connections;
            requests = Within-up _ _ i.requests f;
            upstream = i.upstream;
            buffered = i.buffered;
            gauge = i.gauge;
            queue = i.queue;
          })
  ]
]

pub queue_request-IsAdmissible :
    (l : Lifecycle) → IsAdmissible l → IsAdmissible (Admission.queue_request l).0
unfolding Admission.queue_request ◌+ℤ◌
queue_request-IsAdmissible l i =
    elim (Bool-cases (leb l.limits.max_queued_requests l.queued_requests)) [
      | inl e ↦
          rw (e, Admission.queue_request)
            (record {
              connections = i.connections;
              requests = i.requests;
              upstream = i.upstream;
              buffered = i.buffered;
              gauge = i.gauge;
              queue = i.queue;
            })
      | inr e ↦
          rw (e, Admission.queue_request)
            (record {
              connections = i.connections;
              requests = i.requests;
              upstream = i.upstream;
              buffered = i.buffered;
              gauge = rw (i.gauge) (ground arith);
              queue = ground arith;
            })
    ]

pub admit_upstream-IsAdmissible :
    (l : Lifecycle) → IsAdmissible l → IsAdmissible (Admission.admit_upstream l).0
unfolding Admission.admit_upstream
admit_upstream-IsAdmissible l i =
    elim (Bool-cases (Admission.limit_reached l.limits.max_upstream_active upstream_active l)) [
      | inl e ↦ rw (e, Admission.admit_upstream) (i)
      | inr e ↦
          rw (e, Admission.admit_upstream)
            (record {
              connections = i.connections;
              requests = i.requests;
              upstream = Within-up _ _ i.upstream e;
              buffered = i.buffered;
              gauge = i.gauge;
              queue = i.queue;
            })
    ]

pub release_connection-IsAdmissible :
    (l : Lifecycle) → IsAdmissible l → IsAdmissible (Admission.release_connection l).0
unfolding Admission.release_connection
release_connection-IsAdmissible l i =
    elim (Bool-cases (leb_ℤ (l.metrics connections_active) (pos 0))) [
      | inl e ↦ rw (e, Admission.release_connection) (i)
      | inr e ↦
          rw (e, Admission.release_connection)
            (record {
              connections = Within-down _ _ i.connections e;
              requests = i.requests;
              upstream = i.upstream;
              buffered = i.buffered;
              gauge = i.gauge;
              queue = i.queue;
            })
    ]

pub release_request-IsAdmissible :
    (l : Lifecycle) → IsAdmissible l → IsAdmissible (Admission.release_request l).0
unfolding Admission.release_request
release_request-IsAdmissible l i = elim (Bool-cases (leb_ℤ (l.metrics requests_active) (pos 0))) [
  | inl e ↦ rw (e, Admission.release_request) (i)
  | inr e ↦
      rw (e, Admission.release_request)
        (record {
          connections = i.connections;
          requests = Within-down _ _ i.requests e;
          upstream = i.upstream;
          buffered = i.buffered;
          gauge = i.gauge;
          queue = i.queue;
        })
]

pub release_upstream-IsAdmissible :
    (l : Lifecycle) → IsAdmissible l → IsAdmissible (Admission.release_upstream l).0
unfolding Admission.release_upstream
release_upstream-IsAdmissible l i = elim (Bool-cases (leb_ℤ (l.metrics upstream_active) (pos 0))) [
  | inl e ↦ rw (e, Admission.release_upstream) (i)
  | inr e ↦
      rw (e, Admission.release_upstream)
        (record {
          connections = i.connections;
          requests = i.requests;
          upstream = Within-down _ _ i.upstream e;
          buffered = i.buffered;
          gauge = i.gauge;
          queue = i.queue;
        })
]

pub release_queued_request-IsAdmissible :
    (l : Lifecycle) → IsAdmissible l → IsAdmissible (Admission.release_queued_request l).0
unfolding Admission.release_queued_request ◌+ℤ◌
release_queued_request-IsAdmissible l i = elim (Bool-cases (l.queued_requests == 0)) [
  | inl e ↦ rw (e, Admission.release_queued_request) (i)
  | inr e ↦
      rw (e, Admission.release_queued_request)
        (record {
          connections = i.connections;
          requests = i.requests;
          upstream = i.upstream;
          buffered = i.buffered;
          gauge = rw (i.gauge) (ground arith);
          queue = omega (arith, i.queue);
        })
]

pub reserve_buffered-IsAdmissible :
    (amount : ℤ) (l : Lifecycle)
    → IsAdmissible l
    → IsAdmissible (Admission.reserve_buffered amount l).0
unfolding Admission.reserve_buffered
reserve_buffered-IsAdmissible amount l i = elim (Bool-cases (is_negative amount)) [
  | inl e ↦ rw (e, Admission.reserve_buffered) (i)
  | inr e ↦
      elim (Bool-cases
        (ltb_ℤ (pos l.limits.max_buffered_bytes) (l.metrics buffered_bytes +ℤ amount))) [
          | inl f ↦ rw (e, f, Admission.reserve_buffered) (i)
          | inr f ↦
              rw (e, f, Admission.reserve_buffered)
                (record {
                  connections = i.connections;
                  requests = i.requests;
                  upstream = i.upstream;
                  buffered = Within-add _ _ _ i.buffered e f;
                  gauge = i.gauge;
                  queue = i.queue;
                })
        ]
]

pub release_buffered-IsAdmissible :
    (amount : ℤ) (l : Lifecycle)
    → IsAdmissible l
    → IsAdmissible (Admission.release_buffered amount l).0
unfolding Admission.release_buffered
release_buffered-IsAdmissible amount l i =
    elim (Bool-cases (is_negative amount || ltb_ℤ (l.metrics buffered_bytes) amount)) [
      | inl e ↦ rw (e, Admission.release_buffered) (i)
      | inr e ↦
          rw (e, Admission.release_buffered)
            (record {
              connections = i.connections;
              requests = i.requests;
              upstream = i.upstream;
              buffered = Within-sub _ _ _ i.buffered e;
              gauge = i.gauge;
              queue = i.queue;
            })
    ]
