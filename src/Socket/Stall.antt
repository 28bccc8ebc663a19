-- ===== src/Socket/Stall.antt =====
-- A socket that is reported readable and writable at once.
use message_bus_all_in_one_f.Common.{ℕ, true, false, ◌||◌, ◌≡◌, refl, ap, ◌∙◌, List, if◌then◌else◌}
use message_bus_all_in_one_f.Memory.{done, wild}
use message_bus_all_in_one_f.Socket.State.{
  Thread, loop, write_loop, in_loop, in_write_loop, is_closed, World,
}
use message_bus_all_in_one_f.Socket.Update.{assert_that}
use message_bus_all_in_one_f.Socket.Send.{WriteResult}
use message_bus_all_in_one_f.Socket.Read.{
  ReadResult, read_loop, handle_read, handle_write, handle_event,
}
use message_bus_all_in_one_f.Socket.Flow.{Valid}
use message_bus_all_in_one_f.Socket.Stream.{runs_dry, read_loop_lem, Untouched}

-- The assertion at the head of HandleEvent.
started :
    (t : Thread) (w : World)
    → w.sock.evloop ≡ true
    → w.debug ≡ false
    → (if w.sock.evloop
        then assert_that (in_loop t || in_write_loop t) w
        else if w.debug
        then wild
        else done w)
      ≡ done w
unfolding assert_that
started t w looped release = rw (looped, release) refl

left_to_the_loop :
    (reads : List ReadResult) (w : World)
    → w.sock.evloop ≡ true
    → w.sock.sockev.read ≡ true
    → handle_read write_loop reads w ≡ done (w, false)
unfolding handle_read
left_to_the_loop reads w looped readable = rw (looped, readable) refl

reads_in_loop :
    (reads : List ReadResult) (w : World)
    → w.sock.evloop ≡ true
    → w.sock.sockev.read ≡ true
    → handle_read loop reads w ≡ read_loop loop reads w
unfolding handle_read
reads_in_loop reads w looped readable = rw (looped, readable) refl

left_to_the_writer :
    (writes : List WriteResult) (w : World)
    → w.sock.evloop ≡ true
    → w.sock.sockev.write ≡ true
    → w.sock.writeable ≡ true
    → handle_write loop writes w ≡ done (w, false)
unfolding handle_write
left_to_the_writer writes w looped writable open_w = rw (looped, writable, open_w) refl

-- When the waiter reports a socket readable and writable at once, neither thread writes: HandleEvent
-- on the write thread does nothing at all, and on the loop thread it reads, where the reads end for
-- want of bytes, but writes nothing and leaves the output buffer as it was.
pub both_ready_stalls :
    (reads : List ReadResult) (writes : List WriteResult) (e : ℕ) (w : World)
    → Valid w
    → is_closed w.sock ≡ false
    → w.sock.evloop ≡ true
    → w.sock.sockev.read ≡ true
    → w.sock.sockev.write ≡ true
    → w.sock.writeable ≡ true
    → runs_dry w.sock.tmp_blocksize reads ≡ true
    → (handle_event write_loop reads writes e w ≡ done w)
      × ((w' : World) × (handle_event loop reads writes e w ≡ done w')
          × (w'.wire ≡ w.wire)
          × (w'.sock.outbuf ≡ w.sock.outbuf))
unfolding handle_event
both_ready_stalls reads writes e w v is_open looped readable writable open_w dry =
    let (w', eq, r) = read_loop_lem loop reads w v dry in
    let in_the_loop : w'.sock.evloop ≡ true =
      ap (λ (u : Untouched). u.evloop) r.same_rest ∙ looped in
    let still_write : w'.sock.sockev.write ≡ true =
      ap (λ (u : Untouched). u.sockev.write) r.same_rest ∙ writable in
    let still_open : w'.sock.writeable ≡ true =
      ap (λ (u : Untouched). u.writeable) r.same_rest ∙ open_w in
    (
      rw (is_open, started write_loop w looped v.release, left_to_the_loop reads w looped readable)
          refl,
      (
        w',
        rw
            (
              is_open,
              started loop w looped v.release,
              reads_in_loop reads w looped readable,
              eq,
              left_to_the_writer writes w' in_the_loop still_write still_open,
            )
            refl,
        r.same_wire,
        ap (λ (u : Untouched). u.outbuf) r.same_rest,
      ),
    )
