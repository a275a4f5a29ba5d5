-- ===== src/Stop/Reason.antt =====
-- From a hit to its report: the checks, `gdb_stub_set_stop_thread` and `gdb_stub_send_stop_reason` of
-- src/gdb_stub.c, in the order in which a simulator calls them.
use gdb_stub.Prelude.{ℕ, ◌+◌, ◌^◌, ◌<◌, ◌≡◌, ◌≢◌, ◌∙◌, ap, Bool, true, false, arith}
use gdb_stub.Prelude.Int.{ℤ, pos, eqb_ℤ}
use gdb_stub.Context.{Context}
use gdb_stub.Hex.{Xlen}
use gdb_stub.Breakpoints.{gdb_stub_check_breakpoint}
use gdb_stub.Breakpoints.Laws.{stops_at, gdb_stub_check_breakpoint_lem}
use gdb_stub.Watchpoints.{WatchpointKey, gdb_stub_check_watchpoint_write}
use gdb_stub.Watchpoints.Overlap.{ShareByte}
use gdb_stub.Watchpoints.Laws.{watches}
use gdb_stub.Watchpoints.Check.{Fits, SeesWrite, gdb_stub_check_watchpoint_write_lem}
use gdb_stub.Thread.{is_positive, gdb_stub_set_stop_thread}
use gdb_stub.Stop.{stop_text, format_stop_reply, stop_reason}
use gdb_stub.Stop.Format.{format_stop_reply-fits}

module _ (x : Xlen) (ctx : Context) (signal addr : ℕ) (tid : ℤ)
    (named : is_positive tid ≡ true) where
  reported :
      (c : Context) (s : Bool) (a : ℕ)
      → format_stop_reply x c 128 signal tid s a 0
        ≡ stop_text x c.multiprocess_active signal tid s a 0
  reported c s a = (format_stop_reply-fits x c signal tid s a 0).0

  set_stop_thread-named :
      (c : Context) → gdb_stub_set_stop_thread c tid ≡ record c { stop_thread = tid }
  unfolding gdb_stub_set_stop_thread
  set_stop_thread-named c = ground arith

  tid_ne_zero : eqb_ℤ tid (pos 0) ≡ false
  tid_ne_zero = positive_ne_zero tid named
    where
      positive_ne_zero : (z : ℤ) → is_positive z ≡ true → eqb_ℤ z (pos 0) ≡ false
      positive_ne_zero z h = ground arith

  -- A breakpoint hit by a hart is reported as `swbreak` with that hart's thread, whatever the
  -- address given and whatever watchpoint was hit before; the report clears the hit and changes
  -- nothing else.
  pub stop_reason-gdb_stub_check_breakpoint :
      (pc : ℕ)
      → stops_at ctx pc ≡ true
      → stop_reason x
          (gdb_stub_set_stop_thread (gdb_stub_check_breakpoint ctx pc).0 tid)
          signal
          addr
        ≡ (
          stop_text x ctx.multiprocess_active signal tid true 0 0,
          record ctx { breakpoint_hit = false; stop_thread = tid },
        )
  unfolding stop_reason
  stop_reason-gdb_stub_check_breakpoint pc h =
      let hit = record ctx { breakpoint_hit = true; stop_thread = tid } in
      ground (
        arith,
        gdb_stub_check_breakpoint_lem ctx pc,
        set_stop_thread-named (record ctx { breakpoint_hit = true }),
        reported hit true 0,
        tid_ne_zero,
      )

  watch_report :
      (a : ℕ)
      → ctx.breakpoint_hit ≡ false
      → a ≢ 0
      → stop_reason x
          (gdb_stub_set_stop_thread (record ctx { last_watchpoint_addr = a }) tid)
          signal
          addr
        ≡ (
          stop_text x ctx.multiprocess_active signal tid false a 0,
          record ctx { last_watchpoint_addr = 0; stop_thread = tid },
        )
  unfolding stop_reason
  watch_report a quiet nonzero = ground (
    arith,
    set_stop_thread-named (record ctx { last_watchpoint_addr = a }),
    reported (record ctx { last_watchpoint_addr = a; stop_thread = tid }) false a,
    tid_ne_zero,
  )

  -- A write that hits is reported, if no breakpoint hit is pending, no watchpoint is armed at address
  -- 0, and the ends of the access and of the armed watchpoints are below 2 ^ 64, as a watch on the address of an armed write or access watchpoint that shares a byte
  -- with the write; the report clears that address and changes nothing else.
  pub stop_reason-gdb_stub_check_watchpoint_write :
      (a len : ℕ)
      → ctx.breakpoint_hit ≡ false
      → Fits ctx
      → ((k : WatchpointKey) → watches ctx k ≡ true → k.0 ≢ 0)
      → a + len < 2 ^ 64
      → (gdb_stub_check_watchpoint_write ctx a len).1 ≡ true
      → (k : WatchpointKey) × (watches ctx k ≡ true)
        × SeesWrite k.2
        × ShareByte a len k.0 k.1
        × (stop_reason x
              (gdb_stub_set_stop_thread (gdb_stub_check_watchpoint_write ctx a len).0 tid)
              signal
              addr
            ≡ (
              stop_text x ctx.multiprocess_active signal tid false k.0 0,
              record ctx { last_watchpoint_addr = 0; stop_thread = tid },
            ))
  stop_reason-gdb_stub_check_watchpoint_write a len quiet fits nonzero small h =
      let (k, w, s, b, e) = (gdb_stub_check_watchpoint_write_lem ctx a len fits small).hit h in
      (
        k,
        w,
        s,
        b,
        ap (λ (c : Context). stop_reason x (gdb_stub_set_stop_thread c tid) signal addr) e
            ∙ watch_report k.0 quiet (nonzero k w),
      )
