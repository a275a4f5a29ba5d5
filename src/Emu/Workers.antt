-- ===== src/Emu/Workers.antt =====
-- The work that emu/main.c hands to the worker harts.
use gdb_stub.Prelude.{
  ◌-◌, ltb, leb, subst, sym, ap, Bool, not, ◌||◌, if◌then◌else◌, ◌∙◌, Bool-cases, ==_iff, ◌==◌, inl,
  inr, ℕ, zero, suc, ◌+◌, ◌%◌, ◌^◌, ◌≡◌, ◌⊎◌, ◌<◌, refl, true, false, get_or, some, List, [], ◌∷◌,
  ◌&&◌, arith,
}
use gdb_stub.Prelude.Int.{ℤ, pos}
use gdb_stub.Thread.{is_negative}
use gdb_stub.Emu.Ram.{copy_bytes, ram_base, store32}
use gdb_stub.Context.{Context}
use gdb_stub.Slots.{find_slot}
use gdb_stub.Watchpoints.{
  gdb_stub_check_watchpoint_read, gdb_stub_check_watchpoint_write, check_watchpoint,
}
use gdb_stub.Emu.Cpu.{
  Cpu, rv32_cpu_read_mem, run_check, rv32_cpu_write_reg, in_ram, load_sized, rv32_cpu_load_program,
  rv32_cpu_read_reg, rv32_cpu_write_mem, store_sized,
}
use gdb_stub.Emu.Decode.{b_imm, j_imm, s_imm, sign_extend}
use gdb_stub.Emu.Step.{
  rv32_cpu_step, execute, fetch, exec_op_imm, exec_op, exec_load, load_value, exec_branch, exec_jal,
  exec_jalr, exec_store, op_imm_result, op_result, take_branch,
}
use gdb_stub.Emu.System.{
  System, Hooks, update, gdb_watchpoint_read, gdb_watchpoint_write, hook, setup_hart_watchpoints,
}
use gdb_stub.Emu.Sync.{
  smp_sync_base, smp_worker_poll, smp_work_item, smp_worker_target, smp_sync_on_counter_store,
  ram_read32, ram_write32, smp_shared_done, smp_lock, smp_work_ready, smp_ipi_pending,
  smp_sync_worker_should_run, smp_deliver_ipi, smp_sync_run_worker_jobs, clear_ipis, smp_sync_reset,
  smp_sync_init_worker_hart, worker_loop, smp_sync_ram_init,
}
use gdb_stub.Emu.Board.{valid_hart_count}
use gdb_stub.Emu.Program.{init_system, init_hart, create_test_program}

-- what the work of a worker does not depend on: the other registers and the counts of the workers, hart 0,
-- the client's context but for its watchpoints, the work item of the job before, and the RAM behind the program
pub record Surroundings : Type 0 where
  pub regs : ℕ → ℕ → ℕ
  pub counts : ℕ → ℕ
  pub main_hart : Cpu Hooks
  pub ctx : Context
  pub focus_hart : ℕ
  pub stop_hart : ℤ
  pub output : List ℕ
  pub old_item : ℕ
  pub rest_of_ram : ℕ → ℕ

-- a worker that waits at its poll, with its number in `tp` and the address of the shared words in `s0`
abbrev pub waiting_worker : Surroundings → ℕ → Cpu Hooks
waiting_worker around h =
    let r = around.regs h in
    record (init_hart h) {
      regs =
          0
          ∷ r 1
          ∷ r 2
          ∷ r 3
          ∷ h
          ∷ r 5
          ∷ r 6
          ∷ r 7
          ∷ smp_sync_base
          ∷ r 9
          ∷ r 10
          ∷ r 11
          ∷ r 12
          ∷ r 13
          ∷ r 14
          ∷ r 15
          ∷ r 16
          ∷ r 17
          ∷ r 18
          ∷ r 19
          ∷ r 20
          ∷ r 21
          ∷ r 22
          ∷ r 23
          ∷ r 24
          ∷ r 25
          ∷ r 26
          ∷ r 27
          ∷ r 28
          ∷ r 29
          ∷ r 30
          ∷ r 31
          ∷ [];
      pc = smp_worker_poll;
      instruction_count = around.counts h;
    }

-- The running program with `done` jobs counted: a client is attached that has set no watchpoint, hart 0 is anywhere, the workers
-- wait, the code is as loaded, and the lock, the ready flag and the interrupts are clear.
abbrev pub after_jobs : Surroundings → ℕ → ℕ → System
after_jobs around num_harts done =
    let loaded = ram_write32 smp_shared_done done (init_system num_harts) in
    let ram = store32 (smp_work_item - ram_base) around.old_item (loaded.memory 0) in
    record loaded {
      harts = λ h.
          if h == 0
          then record around.main_hart { shared_ram = false }
          else waiting_worker around h;
      memory =
          update 0
            (λ i.
              if ltb i 0x1000 || leb 0x2000 i && ltb i 0x2040 then ram i else around.rest_of_ram i)
            loaded.memory;
      gdb_ctx = some (record around.ctx {
        stub = record around.ctx.stub { connected = true };
        watchpoint_count = 0;
      });
      focus_hart = around.focus_hart;
      stop_hart = around.stop_hart;
      output = around.output;
    }

-- worker `hart` has taken `item`, has counted it, and waits again
abbrev pub JobDone : ℕ → ℕ → ℕ → System → Type 0
JobDone hart item done sys =
    (ram_read32 sys smp_shared_done ≡ (done + 1) % 2 ^ 32)
    × (ram_read32 sys smp_work_ready ≡ 0)
    × (ram_read32 sys smp_lock ≡ 0)
    × (ram_read32 sys (smp_ipi_pending hart) ≡ 0)
    × (smp_sync_worker_should_run sys hart ≡ false)
    × (get_or (sys.harts hart).regs 9 0 ≡ item)
    × ((sys.harts hart).pc ≡ smp_worker_poll)
    × (get_or (sys.harts hart).regs 4 0 ≡ hart)
    × (get_or (sys.harts hart).regs 8 0 ≡ smp_sync_base)

abbrev run_job : Surroundings → ℕ → ℕ → ℕ → ℕ → System
run_job around num_harts hart item done =
    smp_sync_run_worker_jobs (pos hart)
      (smp_deliver_ipi (pos hart) item (after_jobs around num_harts done))

-- `P` at every number below `n`
abbrev AllBelow : ℕ → (ℕ → Type 0) → Type 0
AllBelow zero P = Unit
AllBelow (suc n) P = AllBelow n P × P n

below_AllBelow : (n : ℕ) (P : ℕ → Type 0) → AllBelow n P → (i : ℕ) → i < n → P i
below_AllBelow zero P a i h = absurd (omega arith)
below_AllBelow (suc n) P (a, p) i h = elim (Bool-cases (n == i)) [
  | inl same ↦ rw (← (==_iff n i).0 same) p
  | inr other ↦ below_AllBelow n P a i (ground arith)
]

abbrev Works : Surroundings → ℕ → ℕ → ℕ → ℕ → Type 0
Works around item done num_harts h =
    JobDone (suc h) item done (run_job around num_harts (suc h) item done)

module _ (around : Surroundings) (item done : ℕ) (item_lt : item < 2 ^ 32)
    (done_lt : done < 2 ^ 32) where
  jobs_of_2 : AllBelow 1 (Works around item done 2)
  unfolding ram_read32 smp_sync_run_worker_jobs smp_deliver_ipi init_system clear_ipis
      smp_sync_reset smp_sync_init_worker_hart init_hart rv32_cpu_step execute fetch
      rv32_cpu_read_mem run_check copy_bytes exec_op_imm rv32_cpu_write_reg gdb_watchpoint_read
      exec_op exec_load load_value exec_branch valid_hart_count in_ram load_sized
      rv32_cpu_load_program rv32_cpu_read_reg rv32_cpu_write_mem store_sized b_imm j_imm s_imm
      sign_extend create_test_program exec_jal exec_jalr exec_store op_imm_result op_result
      take_branch ram_write32 smp_sync_ram_init smp_sync_worker_should_run worker_loop
      gdb_watchpoint_write hook setup_hart_watchpoints gdb_stub_check_watchpoint_read
      gdb_stub_check_watchpoint_write check_watchpoint find_slot
  jobs_of_2 = (tt, ground arith)

  jobs_of_4 : AllBelow 3 (Works around item done 4)
  unfolding ram_read32 smp_sync_run_worker_jobs smp_deliver_ipi init_system clear_ipis
      smp_sync_reset smp_sync_init_worker_hart init_hart rv32_cpu_step execute fetch
      rv32_cpu_read_mem run_check copy_bytes exec_op_imm rv32_cpu_write_reg gdb_watchpoint_read
      exec_op exec_load load_value exec_branch valid_hart_count in_ram load_sized
      rv32_cpu_load_program rv32_cpu_read_reg rv32_cpu_write_mem store_sized b_imm j_imm s_imm
      sign_extend create_test_program exec_jal exec_jalr exec_store op_imm_result op_result
      take_branch ram_write32 smp_sync_ram_init smp_sync_worker_should_run worker_loop
      gdb_watchpoint_write hook setup_hart_watchpoints gdb_stub_check_watchpoint_read
      gdb_stub_check_watchpoint_write check_watchpoint find_slot
  jobs_of_4 = (((tt, ground arith), ground arith), ground arith)

  jobs_of_8 : AllBelow 7 (Works around item done 8)
  unfolding ram_read32 smp_sync_run_worker_jobs smp_deliver_ipi init_system clear_ipis
      smp_sync_reset smp_sync_init_worker_hart init_hart rv32_cpu_step execute fetch
      rv32_cpu_read_mem run_check copy_bytes exec_op_imm rv32_cpu_write_reg gdb_watchpoint_read
      exec_op exec_load load_value exec_branch valid_hart_count in_ram load_sized
      rv32_cpu_load_program rv32_cpu_read_reg rv32_cpu_write_mem store_sized b_imm j_imm s_imm
      sign_extend create_test_program exec_jal exec_jalr exec_store op_imm_result op_result
      take_branch ram_write32 smp_sync_ram_init smp_sync_worker_should_run worker_loop
      gdb_watchpoint_write hook setup_hart_watchpoints gdb_stub_check_watchpoint_read
      gdb_stub_check_watchpoint_write check_watchpoint find_slot
  jobs_of_8 = (
    (
      (((((tt, ground arith), ground arith), ground arith), ground arith), ground arith),
      ground arith,
    ),
    ground arith,
  )

valid_hart_count_cases : (n : ℕ) → valid_hart_count n ≡ true → (n ≡ 1) ⊎ (n ≡ 2) ⊎ (n ≡ 4) ⊎ (n ≡ 8)
unfolding valid_hart_count
valid_hart_count_cases n h = ground arith

smp_worker_target_lem :
    (sys : System) (n item : ℕ)
    → sys.num_harts ≡ n
    → ltb 1 n ≡ true
    → smp_worker_target sys item ≡ pos (suc (item % (n - 1)))
unfolding smp_worker_target
smp_worker_target_lem sys n item e h = ground (arith, ap (λ (k : ℕ). item % (k - 1)) e)

smp_sync_on_counter_store_lem :
    (sys : System) (n item : ℕ)
    → sys.num_harts ≡ n
    → ltb 1 n ≡ true
    → smp_sync_on_counter_store 0 item sys ≡ (
        let target = pos (suc (item % (n - 1))) in
        smp_sync_run_worker_jobs target (smp_deliver_ipi target item sys))
unfolding smp_sync_on_counter_store
smp_sync_on_counter_store_lem sys n item e h =
    let several : leb sys.num_harts 1 ≡ false = ground arith in
    ap
      (λ (b : Bool).
        if b || not (0 == 0)
        then sys
        else if is_negative (smp_worker_target sys item)
        then sys
        else smp_sync_run_worker_jobs (smp_worker_target sys item)
            (smp_deliver_ipi (smp_worker_target sys item) item sys))
      several
    ∙ ap
        (λ (t : ℤ).
          if is_negative t then sys else smp_sync_run_worker_jobs t (smp_deliver_ipi t item sys))
        (smp_worker_target_lem sys n item e h)

counter_job :
    (around : Surroundings) (n counter done : ℕ)
    → (after_jobs around n done).num_harts ≡ n
    → ltb 1 n ≡ true
    → Works around counter done n (counter % (n - 1))
    → JobDone
        (suc (counter % (n - 1)))
        counter
        done
        (smp_sync_on_counter_store 0 counter (after_jobs around n done))
counter_job around n counter done e h works =
    subst (JobDone (suc (counter % (n - 1))) counter done)
      (sym (smp_sync_on_counter_store_lem (after_jobs around n done) n counter e h)) works

-- On the running system of 2, 4 or 8 harts with a client attached that has set no watchpoint, with the code as
-- loaded, the lock, the ready flag and the interrupts clear, and every worker running, not halted and waiting at its poll with its number in `tp` and
-- the address of the shared words in `s0`; whatever hart 0, the other registers, the rest of the RAM, the work item before and the 32-bit count
-- of jobs done are: a store of any 32-bit counter by hart 0 makes a worker, chosen by the counter, do a job within
-- the 128 steps of its guard. The count goes up by one, modulo 2 ^ 32, the job is taken, the lock is released, the
-- interrupt is cleared, the worker has the counter in `s1`, and waits again at its poll with `tp` and `s0` kept.
pub smp_sync_on_counter_store-JobDone :
    (around : Surroundings) (num_harts counter done : ℕ)
    → valid_hart_count num_harts ≡ true
    → 1 < num_harts
    → counter < 2 ^ 32
    → done < 2 ^ 32
    → JobDone
        (suc (counter % (num_harts - 1)))
        counter
        done
        (smp_sync_on_counter_store 0 counter (after_jobs around num_harts done))
unfolding init_system clear_ipis smp_sync_reset ram_write32 valid_hart_count
smp_sync_on_counter_store-JobDone around num_harts counter done valid l counter_lt done_lt =
    elim (valid_hart_count_cases num_harts valid) [
      | inl e ↦ absurd (omega arith)
      | inr (inl e) ↦ rw e (
          counter_job around 2 counter done refl refl (
            below_AllBelow 1 (Works around counter done 2)
              (jobs_of_2 around counter done counter_lt done_lt) (counter % 1) (omega arith)))
      | inr (inr (inl e)) ↦ rw e (
          counter_job around 4 counter done refl refl (
            below_AllBelow 3 (Works around counter done 4)
              (jobs_of_4 around counter done counter_lt done_lt) (counter % 3) (omega arith)))
      | inr (inr (inr e)) ↦ rw e (
          counter_job around 8 counter done refl refl (
            below_AllBelow 7 (Works around counter done 8)
              (jobs_of_8 around counter done counter_lt done_lt) (counter % 7) (omega arith)))
    ]
