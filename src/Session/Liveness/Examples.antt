-- ===== src/Session/Liveness/Examples.antt =====
-- Runs of the clocks, and the theorems about them at concrete inputs.
use lightstreamer_rs.Base.{
  ℕ, ◌≡◌, ◌≢◌, ◌↔◌, ◌+◌, refl, Option, some, [], ◌∷◌, arith, checked_add, usize_mod,
}
use lightstreamer_rs.Session.Liveness.{
  Liveness, idle, send_heartbeat, inbound_stalled, new, on_bound, on_outbound, due, next_deadline,
}
use lightstreamer_rs.Session.Liveness.Deadlines.{
  outbound, run, Passed, due-next_deadline, due-mute, due-heard,
}

-- A clock of 64 bits.
abbrev instant_add : ℕ → ℕ → Option ℕ
instant_add = checked_add usize_mod

abbrev fresh : Liveness
fresh = new 20 (some 50) 0

abbrev bound : Liveness
bound = on_bound fresh 100 5

heartbeat_first : due instant_add bound 60 ≡ send_heartbeat
unfolding due on_bound new
heartbeat_first = refl

stall_first : due instant_add bound 125 ≡ inbound_stalled 120
unfolding due on_bound new
stall_first = refl

nothing_due : due instant_add (on_outbound bound 60) 100 ≡ idle
unfolding due on_bound new on_outbound
nothing_due = refl

due-next_deadline_example :
    (due instant_add bound 60 ≢ idle) ↔ Passed instant_add (next_deadline instant_add bound) 60
due-next_deadline_example = due-next_deadline instant_add bound 60

due-mute_example :
    due instant_add (run (on_bound fresh 100 5) (outbound 60 ∷ outbound 110 ∷ [])) 125
    ≡ inbound_stalled 120
unfolding new
due-mute_example =
    due-mute instant_add fresh 100 5 125 (outbound 60 ∷ outbound 110 ∷ []) (tt, (tt, tt))
      (omega arith)

instant_add_sum : (from at d : ℕ) → instant_add from d ≡ some at → at ≡ from + d
instant_add_sum from at d h = ground arith

due-heard_example : due instant_add bound 124 ≢ inbound_stalled 120
unfolding on_bound new
due-heard_example =
    due-heard instant_add bound 124 120 instant_add_sum refl (ground arith) (omega arith)
