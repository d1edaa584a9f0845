-- ===== src/Proc/Sleep/Wakeups.antt =====
-- The handshake between `sleep_prepare`, `sleep` and `wakeup` of kernel/proc.c.
use os_design_practice.Prelude.{
  ℕ, ◌≡◌, ◌≢◌, refl, ap, sym, ◌∙◌, false, some, modify, map, get_elem?, get_elem?-map,
  get_elem?-modify_self, arith,
}
use os_design_practice.Proc.Types.{Proc, ProcState, is_sleeping, sleeping, runnable}
use os_design_practice.Proc.Sched.{Table}
use os_design_practice.Proc.Sleep.{sleep_prepare, sleep_one, sleep, wake_one, wakeup}

-- Steps of others that keep the channel and the state of process `c`.
abbrev pub LeavesAlone : ℕ → (Table → Table) → Type 0
LeavesAlone c f =
    (t : Table) (p : Proc)
    → get_elem? t c ≡ some p
    → (q : Proc) × (get_elem? (f t) c ≡ some q) × (q.chan ≡ p.chan) × (q.state ≡ p.state)

-- Process `c` stands at `t` with this channel and this state.
pub record Stands (t : Table) (c chan : ℕ) (state : ProcState) : Type 0 where
  pub proc : Proc
  pub here : get_elem? t c ≡ some proc
  pub on : proc.chan ≡ chan
  pub at : proc.state ≡ state

Stands-LeavesAlone :
    {t : Table} {c chan : ℕ} {s : ProcState} (f : Table → Table)
    → LeavesAlone c f
    → Stands t c chan s
    → Stands (f t) c chan s
Stands-LeavesAlone {t} f keep h =
    let (q, here, on, at) = keep t h.proc h.here in
    record { proc = q; here = here; on = on ∙ h.on; at = at ∙ h.at }

Stands-prepare :
    (t : Table) (c chan : ℕ) {t' : Table} {p : Proc}
    → get_elem? t c ≡ some p
    → sleep_prepare c chan t ≡ some t'
    → Stands t' c chan p.state
unfolding sleep_prepare
Stands-prepare t c chan {p = p} here e = record {
  proc = record p { chan = chan };
  here = ground (arith, get_elem?-modify_self t c (λ (x : Proc). record x { chan = chan }) here);
  on = refl;
  at = refl;
}

wake_one-hit : (chan : ℕ) (p : Proc) → p.chan ≡ chan → (wake_one chan p).chan ≡ 0
unfolding wake_one
wake_one-hit chan p e = ground arith

wake_one-awake :
    (chan : ℕ) (p : Proc) → is_sleeping p.state ≡ false → (wake_one chan p).state ≡ p.state
unfolding wake_one
wake_one-awake chan p e = ground arith

wake_one-asleep :
    (chan : ℕ) (p : Proc) → p.chan ≡ chan → p.state ≡ sleeping → (wake_one chan p).state ≡ runnable
unfolding wake_one
wake_one-asleep chan p e s = ground arith

sleep_one-woken : (p : Proc) → p.chan ≡ 0 → sleep_one p ≡ p
unfolding sleep_one
sleep_one-woken p e = ground arith

sleep_one-waits : (p : Proc) → p.chan ≢ 0 → sleep_one p ≡ record p { state = sleeping }
unfolding sleep_one
sleep_one-waits p e = ground arith

-- A wakeup between `sleep_prepare` and `sleep` keeps the process from going to sleep: it stays in
-- its state, with no channel. Others may take any steps before and after the wakeup that keep the
-- channel and the state of the process.
pub wakeup_before_sleep :
    (t : Table) (c chan : ℕ) {t' : Table} {p : Proc} (f g : Table → Table)
    → get_elem? t c ≡ some p
    → is_sleeping p.state ≡ false
    → sleep_prepare c chan t ≡ some t'
    → LeavesAlone c f
    → LeavesAlone c g
    → Stands (sleep c (g (wakeup chan (f t')))) c 0 p.state
unfolding wakeup sleep
wakeup_before_sleep t c chan {t'} {p} f g here awake e kf kg = record {
  proc = y.proc;
  here =
      get_elem?-modify_self (g (map (wake_one chan) (f t'))) c sleep_one y.here
      ∙ ap some (sleep_one-woken y.proc y.on);
  on = y.on;
  at = y.at;
}
  where
    x : Stands (f t') c chan p.state
    x = Stands-LeavesAlone f kf (Stands-prepare t c chan here e)

    woken : Stands (map (wake_one chan) (f t')) c 0 p.state
    woken = record {
      proc = wake_one chan x.proc;
      here = get_elem?-map (wake_one chan) (f t') c x.here;
      on = wake_one-hit chan x.proc x.on;
      at = wake_one-awake chan x.proc (ap is_sleeping x.at ∙ awake) ∙ x.at;
    }

    y : Stands (g (map (wake_one chan) (f t'))) c 0 p.state
    y = Stands-LeavesAlone g kg woken

-- A wakeup after `sleep` makes the process RUNNABLE, whatever others did in between that keeps the
-- channel and the state of the process.
pub wakeup_after_sleep :
    (t : Table) (c chan : ℕ) {t' : Table} {p : Proc} (f g : Table → Table)
    → get_elem? t c ≡ some p
    → chan ≢ 0
    → sleep_prepare c chan t ≡ some t'
    → LeavesAlone c f
    → LeavesAlone c g
    → Stands (wakeup chan (g (sleep c (f t')))) c 0 runnable
unfolding wakeup sleep
wakeup_after_sleep t c chan {t'} {p} f g here nonzero e kf kg = record {
  proc = wake_one chan y.proc;
  here = get_elem?-map (wake_one chan) (g (modify (f t') c sleep_one)) c y.here;
  on = wake_one-hit chan y.proc y.on;
  at = wake_one-asleep chan y.proc y.on y.at;
}
  where
    x : Stands (f t') c chan p.state
    x = Stands-LeavesAlone f kf (Stands-prepare t c chan here e)

    asleep : Stands (modify (f t') c sleep_one) c chan sleeping
    asleep = record {
      proc = record (x.proc) { state = sleeping };
      here =
          get_elem?-modify_self (f t') c sleep_one x.here
          ∙ ap some (sleep_one-waits x.proc (λ z. nonzero (sym x.on ∙ z)));
      on = x.on;
      at = refl;
    }

    y : Stands (g (modify (f t') c sleep_one)) c chan sleeping
    y = Stands-LeavesAlone g kg asleep
