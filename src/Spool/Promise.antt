-- ===== src/Spool/Promise.antt =====
-- `WritePacket` and `Tick` keep what is advertised on the disk.
use ipcap.Base.{ℕ, ◌+◌, ◌<◌, ◌^◌, [], length, Bool, true, false}
use ipcap.Storage.Io.{Sys, gets, ◌>>=◌}
use ipcap.Storage.Triple.{
  Triple, Triple-bind, Triple-then, Triple-modify, Triple-pure, Triple-gets, Triple-weaken, After,
  After-weaken,
}
use ipcap.Pcap.{Record, append_record}
use ipcap.Spool.Writer.{
  Writer, W, sync, rotate, when, sync_due, rotate_due, counted, write_packet, tick, with_orig_len,
}
use ipcap.Spool.Durable.{Safe, Inv}
use ipcap.Spool.Synced.{Steps, Ready, write-Steps, counted-Inv, sync-Steps}
use ipcap.Spool.Rotated.{Plain, rotate-Steps}

when-Steps :
    (P Q : Writer → Type 0) (b : Bool) (m : W (Unit {0}))
    → ((w : Writer) → P w → Q w)
    → Steps P m Q
    → Steps P (when b m) Q
when-Steps P Q true m f t = t
when-Steps P Q false m f t =
    Triple-weaken (Triple-pure {I = Safe} {Q = λ (a : Unit {0}) w. Q w} tt) f (λ a w h. h)
      (λ w h. h)

deciding :
    (P Q : Writer → Type 0) (f : Writer → Bool) (m : W (Unit {0}))
    → ((w : Writer) → P w → Q w)
    → Steps P m Q
    → Steps P (gets f >>= λ b. when b m) Q
deciding P Q f m g t =
    Triple-bind (Triple-gets f)
      (λ b. Triple-weaken (when-Steps P Q b m g t) (λ w h. h.0) (λ a w h. h) (λ w h. h))

write_packet-Steps :
    (now : ℕ) (rec : Record) → Triple Ready (write_packet now rec) (λ g w. Inv 0 w) Safe
unfolding write_packet
write_packet-Steps now rec =
    let buf = append_record (with_orig_len rec) [] in
    Triple-then (write-Steps buf) (λ a. Triple-bind (Triple-gets (λ w. w.head)) (λ g.
      Triple-then
        (Triple-then
          (Triple-then
            (Triple-modify {Q = Ready} (counted (length buf))
              (λ w h. (counted-Inv (length buf) w h.0.0, h.0.1)))
            (λ b. deciding Ready Ready (sync_due now) (sync now) (λ w h. h) (sync-Steps now)))
          (λ b.
            deciding Ready Plain (rotate_due now) (rotate now) (λ w h. (h.0, tt))
              (rotate-Steps now)))
        (λ b.
          Triple-weaken (Triple-pure {I = Safe} {Q = λ (n : ℕ) w. Inv 0 w} g) (λ w h. h.0)
            (λ n w h. h) (λ w h. h))))

-- From a writer whose advertised segments are synced to the length that is advertised, with the number
-- of the next segment below 2^64 - 1, WritePacket keeps this, with the sync and the rotation that it
-- may make; where a call fails, every segment in head.json and in the manifest is still synced to its
-- length.
pub write_packet_promises :
    (now : ℕ) (rec : Record) (s : Sys Writer)
    → Inv 0 s.state
    → s.state.next_seq + 1 < 2 ^ 64
    → After (λ (g : ℕ) w. Inv 0 w) Safe s.faults (write_packet now rec s)
write_packet_promises now rec s h room = (write_packet-Steps now rec).run s (h, room)

tick-Steps : (now : ℕ) → Steps Ready (tick now) Plain
unfolding tick
tick-Steps now =
    Triple-then (deciding Ready Ready _ (sync now) (λ w h. h) (sync-Steps now))
      (λ a. deciding Ready Plain _ (rotate now) (λ w h. (h.0, tt)) (rotate-Steps now))

-- The same of Tick.
pub tick_promises :
    (now : ℕ) (s : Sys Writer)
    → Inv 0 s.state
    → s.state.next_seq + 1 < 2 ^ 64
    → After (λ (a : Unit {0}) w. Inv 0 w) Safe s.faults (tick now s)
tick_promises now s h room =
    After-weaken s.faults (tick now s) (λ a w p. p.0) (λ w p. p) ((tick-Steps now).run s (h, room))
