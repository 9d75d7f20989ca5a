-- ===== src/Device/Tests/Ends.antt =====
-- The theorems on the ends of the threads, at concrete states.
use virtual_usb.Base.{◌≡◌, refl, some, [], ◌∷◌}
use virtual_usb.Device.State.{initial, stopped, invalid_ep_idx, recv_ended}
use virtual_usb.Device.Reset.{reset_enter}
use virtual_usb.Device.Reset.Ending.{Inevitable, stop_entered, stop_ends}
use virtual_usb.Device.Reset.Threads.{
  System, running, rest, step, enters, client, reader, move, waits, leaves, reader_never_ends,
}

-- The client stops the device after the read thread has met an error.
abbrev stopped_late : System
stopped_late =
    let t = running (record initial { socket = some 5 }) in
    let u = move reader waits (reset_enter invalid_ep_idx t.shared).1 t in
    record u { client_at = leaves }

reader_never_ends_example : (stopped_late.reader_at ≡ waits) × (stopped_late.shared.socket ≡ some 5)
unfolding reset_enter
reader_never_ends_example =
    reader_never_ends (running (record initial { socket = some 5 })) invalid_ep_idx refl refl
      (step rest (enters client stopped refl refl))

-- The read thread has been the first to notice that the socket is shut down.
abbrev reader_noticed : System
reader_noticed =
    let t = stop_entered (record initial { socket = some 5 }) stopped in
    record t { reader_at = leaves }

stop_ends_example : Inevitable stopped reader_noticed
unfolding reset_enter
stop_ends_example =
    stop_ends (record initial { socket = some 5 }) stopped 5 refl
      (step rest (enters reader recv_ended refl refl))

-- Without the shutdown nothing wakes the read thread.
shut_sockets : reader_noticed.shared.shut_down ≡ 5 ∷ []
unfolding reset_enter
shut_sockets = refl
