-- ===== src/Tests/NetworkTests.antt =====
-- The private network: one client that asks for an address, binds a port, sends and leaves.
use lwproxy.Base.{
  ◌<◌, ◌+◌, ◌⊎◌, length, All, ℕ, ◌≤◌, ◌≡◌, ◌↔◌, refl, [], ◌∷◌, some, true, Bytes, arith, take,
}
use lwproxy.Result.{ok}
use lwproxy.Net.{v4, SocketAddr}
use lwproxy.Wire.{be_bytes, from_be_from}
use lwproxy.Wire.Model.{plain_buf}
use lwproxy.HashMap
use lwproxy.Frame.{Frame, decode, peer}
use lwproxy.Code
use lwproxy.Code.{Passcode, proxy_address, random_address, parse, to_text, reserved}
use lwproxy.Code.Passcodes.{IsAlphanumeric, parse_iff, parse-new}
use lwproxy.Translate.{relay_frame, relay_reply}
use lwproxy.Translate.Replies.{relay_reply-relays}
use lwproxy.Network
use lwproxy.Network.{
  Assignment, Bound, assign, bind, unbind, expire, send, route, assignment_of, record_assignment,
}
use lwproxy.Network.Inv.{Inv, new-Inv}
use lwproxy.Network.Expire.{expire-keeps}
use lwproxy.Network.Assign.{IsFreshlyAssigned, Draws, free, assign-IsFreshlyAssigned, assign_total}
use lwproxy.Network.Bounds.{bind-binds}
use lwproxy.Network.Bind.{BindEnds, bind-BindEnds}
use lwproxy.Network.Unbind.{IsReleased, unbind-IsReleased, unbind-bind}
use lwproxy.Network.Leases.{System, Reach, IsLeased, here, next, assigns, binds, Reach-IsLeased}
use lwproxy.Network.Sending.{SendEnds, send-SendEnds}
use lwproxy.Tests.Sample.{
  counting, first_address, first_passcode, assigned, assign_runs, bound, bind_runs,
}

abbrev first_assignment : Assignment
first_assignment = record { passcode = first_passcode; binds = 0; touched = 7 }

abbrev assigned_system : System
assigned_system = record { network = assigned; leases = [] }

assigned-Reach : Reach counting assigned_system
assigned-Reach = next here (assigns 1 1 6 7 0 17 first_address first_passcode assigned assign_runs)

abbrev bound_system : System
bound_system = record {
  network = bound.network;
  leases = record { handler = bound.handler; relay = 1 } ∷ [];
}

bound-Reach : Reach counting bound_system
bound-Reach = next assigned-Reach (binds 8 first_passcode 30000 1 2 bound (omega arith) bind_runs)

Reach-IsLeased_example : IsLeased bound_system
Reach-IsLeased_example = Reach-IsLeased bound-Reach

assigned-Inv : Inv assigned
assigned-Inv =
    (assign-IsFreshlyAssigned counting 1 1 6 7 Network.new 0 new-Inv assign_runs).consistent

bound-Inv : Inv bound.network
bound-Inv = Reach-IsLeased_example.consistent

send-SendEnds_example :
    SendEnds plain_buf bound.network bound.handler
      (1 ∷ [])
      true
      (send plain_buf bound.network bound.handler (1 ∷ []) true)
send-SendEnds_example =
    send-SendEnds plain_buf bound.network bound.handler (1 ∷ []) true (omega arith) (omega arith)
      (omega arith)

bind-BindEnds_example :
    BindEnds assigned 8 first_passcode 30000 1 2 (bind assigned 8 first_passcode 30000 1 2)
bind-BindEnds_example = bind-BindEnds assigned assigned-Inv 8 first_passcode 30000 1 2 (omega arith)

assign-IsFreshlyAssigned_example :
    IsFreshlyAssigned (expire 6 Network.new) assigned first_address first_passcode
assign-IsFreshlyAssigned_example =
    assign-IsFreshlyAssigned counting 1 1 6 7 Network.new 0 new-Inv assign_runs

first-Draws : Draws counting 1 (expire 6 Network.new) 0 0 first_address first_passcode 17
unfolding Network.new expire Network.forget Code.new random_address Code.random_code HashMap.new
    HashMap.get from_be_from be_bytes
first-Draws = free {s' = 1} refl refl refl

assign_total_example :
    assign counting 1 1 6 7 Network.new 0
    ≡ ok (
        some (
          first_address,
          first_passcode,
          record_assignment 7 first_address first_passcode (expire 6 Network.new),
          17,
        ))
assign_total_example = assign_total counting 1 6 7 Network.new first-Draws (omega arith)

unbind-IsReleased_example :
    IsReleased bound.network first_address 30000 (unbind bound.network 9 (first_address, 30000))
unbind-IsReleased_example = unbind-IsReleased bound.network bound-Inv 9 first_address 30000

unbind-bind_example : (unbind bound.network 9 bound.handler.key).by_passcode ≡ assigned.by_passcode
unbind-bind_example =
    (unbind-bind assigned 8 9 first_passcode 30000 1 2 bound assigned-Inv (omega arith) bind_runs).1

-- The address is kept for 24 hours after it was given at 7.
expire-keeps_example :
    (assignment_of (expire 86400000000006 assigned) first_address ≡ some first_assignment) ↔ (
      (assignment_of assigned first_address ≡ some first_assignment)
      × ((0 < 0) ⊎ (86400000000006 < 7 + 86400000000000)))
expire-keeps_example =
    expire-keeps 86400000000006 assigned assigned-Inv first_address first_assignment

bind-binds_example :
    (a a' : Assignment) × (assignment_of assigned first_address ≡ some a)
    × (assignment_of bound.network first_address ≡ some a')
    × (a'.binds ≡ a.binds + 1)
    × (a'.binds ≤ 65536)
bind-binds_example =
    bind-binds assigned_system 8 first_passcode 30000 1 2 bound assigned-Reach (omega arith)
      bind_runs

parse-new_example :
    (p : Passcode) × (s' : ℕ) × (Code.new counting 1 ≡ ok (p, s')) × (parse (to_text p) ≡ ok p)
parse-new_example = parse-new counting 1

parse_iff_example : (parse first_passcode.code ≡ ok first_passcode) ↔ (
    (length first_passcode.code ≡ 16)
    × All IsAlphanumeric first_passcode.code
    × (to_text first_passcode ≡ first_passcode.code))
parse_iff_example = parse_iff first_passcode.code first_passcode

abbrev server : SocketAddr
server = record { ip = v4 0x01020304; port = 30000 }

relay_reply-relays_example :
    (frame : Bytes) × (f : Frame) × (relay_reply plain_buf
        (some (2, server))
        (9 ∷ 8 ∷ 7 ∷ [])
        1
        true
      ≡ ok (true, relay_frame 1 frame ∷ []))
    × (decode plain_buf frame ≡ ok f)
    × (peer f ≡ server)
    × (f.content ≡ take 2 (9 ∷ 8 ∷ 7 ∷ []))
relay_reply-relays_example =
    relay_reply-relays plain_buf server (9 ∷ 8 ∷ 7 ∷ []) 2 1 true (omega arith) (omega arith)
      (omega arith) (omega arith) (omega arith) (omega arith)
