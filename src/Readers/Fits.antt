-- ===== src/Readers/Fits.antt =====
-- What `process_collect` leaves in the arrays of a process.
use application_monitoring.Prelude.{
  ℕ, ℤ, pos, ◌+◌, ◌-◌, ◌%◌, ◌^◌, ◌<◌, ◌≡◌, refl, List, Option, none, some, leb, leb_ℤ, length,
  length-take, min, arith, Bool-cases, Option-cases, inl, inr, subst,
}
use application_monitoring.Text.{Bytes, copy_bounded-lt}
use application_monitoring.Types.{NeoProcess, max_cmdline, max_user}
use application_monitoring.Double.{Double}
use application_monitoring.Readers.{process_read_cmdline, process_read_status}
use application_monitoring.Readers.Stat.{stat_comm, strchr, strrchr, behind_byte, process_read_stat}
use application_monitoring.Readers.Collect.{ProcFiles, blank_process, complete, process_collect}
use application_monitoring.Readers.Words.{process_read_cmdline-IsText}

-- What holds of the value, if there is one.
abbrev IfSome {ℓ} : {A : Type ℓ} → (A → Type 0) → Option A → Type 0
IfSome P none = Unit
IfSome P (some a) = P a

IfSome-some {ℓ} :
    {A : Type ℓ} (P : A → Type 0) {o : Option A} {a : A} → IfSome P o → o ≡ some a → P a
IfSome-some P h e = subst (IfSome P) e h

stat_comm-IfSome : (buffer : Bytes) → IfSome (λ found. length found.0 < 256) (stat_comm buffer)
unfolding stat_comm
stat_comm-IfSome buffer = elim (Option-cases (strchr buffer b'(')) [
  | inl absent ↦ rw (stat_comm, absent) tt
  | inr (left, e) ↦ elim (Option-cases (strrchr buffer b')')) [
    | inl absent ↦ rw (stat_comm, e, absent) tt
    | inr (right, f) ↦ elim (Bool-cases (leb (length left) (length right))) [
      | inl bad ↦ rw (stat_comm, e, f, bad) tt
      | inr good ↦
          rw (stat_comm, e, f, good)
            (omega
              (arith, length-take (min (length left - length right - 1) 255) (behind_byte left)))
    ]
  ]
]

module _ {D : Type 0} where
  -- What the line of stat settles.
  abbrev Started : ℤ → NeoProcess D → Type 0
  Started pid process =
      (process.pid ≡ pid)
      × ((length process.comm < 256)
          × (process.total_time ≡ (process.utime + process.stime) % 2 ^ 64))

  -- Every text fits its array with its NUL, and the total is the sum of the two times.
  abbrev pub Fits : ℤ → NeoProcess D → Type 0
  Fits pid process =
      Started pid process
      × ((length process.user < max_user) × (length process.cmdline < max_cmdline))

  process_read_stat-Started :
      (page_size : ℤ) (file : Option Bytes) (process : NeoProcess D)
      → IfSome (Started process.pid) (process_read_stat page_size file process)
  unfolding process_read_stat
  process_read_stat-Started page_size none process = tt
  process_read_stat-Started page_size (some buffer) process =
      elim (Option-cases (stat_comm buffer)) [
        | inl absent ↦ rw (process_read_stat, absent) tt
        | inr ((comm, fields), found) ↦
            rw (process_read_stat, found)
              (
                refl,
                (IfSome-some (λ found. length found.0 < 256) (stat_comm-IfSome buffer) found, refl),
              )
      ]

  process_read_status-Started :
      (getpwuid : ℕ → Option Bytes) (decimal : ℕ → Bytes) (file : Option (List Bytes)) (pid : ℤ)
      (process : NeoProcess D)
      → Started pid process
      → IfSome
          (λ known. Started pid known × (length known.user < max_user))
          (process_read_status getpwuid decimal file process)
  unfolding process_read_status
  process_read_status-Started getpwuid decimal none pid process h = tt
  process_read_status-Started getpwuid decimal (some lines) pid process h =
      (h, copy_bounded-lt max_user _ (omega arith))

module _ {D : Type 0} (F : Double D) where
  complete-Fits :
      (page_size ticks_per_second : ℤ) (getpwuid : ℕ → Option Bytes) (decimal : ℕ → Bytes)
      (files : ProcFiles) (pid : ℤ) (process : NeoProcess D)
      → Started pid process × (length process.user < max_user)
      → Fits pid (complete F page_size ticks_per_second getpwuid decimal files process)
  unfolding complete
  complete-Fits page_size ticks_per_second getpwuid decimal files pid process (h, user) =
      elim (Option-cases (process_read_cmdline files.cmdline max_cmdline)) [
        | inl absent ↦
            rw (complete, absent) (h, (user, copy_bounded-lt max_cmdline _ (omega arith)))
        | inr (text, found) ↦
            rw (complete, found)
              (h, (user, (process_read_cmdline-IsText files.cmdline max_cmdline found).0.0))
      ]

  process_collect-IfSome :
      (page_size ticks_per_second : ℤ) (getpwuid : ℕ → Option Bytes) (decimal : ℕ → Bytes)
      (files : ℤ → ProcFiles) (pid : ℤ)
      → IfSome (Fits pid) (process_collect F page_size ticks_per_second getpwuid decimal files pid)
  unfolding process_collect
  process_collect-IfSome page_size ticks_per_second getpwuid decimal files pid =
      elim (Bool-cases (leb_ℤ pid (pos 0))) [
        | inl bad ↦ rw (process_collect, bad) tt
        | inr good ↦
            elim (Option-cases
              (process_read_stat page_size (files pid).stat (blank_process F pid))) [
                | inl absent ↦ rw (process_collect, good, absent) tt
                | inr (started, e) ↦
                    let h : Started pid started =
                      IfSome-some (Started pid)
                        (process_read_stat-Started page_size (files pid).stat (blank_process F pid))
                        e in
                    elim (Option-cases
                      (process_read_status getpwuid decimal (files pid).status started)) [
                        | inl absent ↦ rw (process_collect, good, e, absent) tt
                        | inr (known, f) ↦
                            rw (process_collect, good, e, f)
                              (complete-Fits page_size ticks_per_second getpwuid decimal (files pid)
                                pid known
                                (IfSome-some
                                  (λ known. Started pid known × (length known.user < max_user))
                                  (process_read_status-Started getpwuid decimal (files pid).status
                                    pid started h)
                                  f))
                      ]
              ]
      ]

  -- A process that is collected has the PID that was asked for; its name, its user and its command line fit
  -- their arrays with their NUL; and its total time is the sum of its user and its system time modulo
  -- 2 ^ 64; whatever the files say.
  pub process_collect-Fits :
      (page_size ticks_per_second : ℤ) (getpwuid : ℕ → Option Bytes) (decimal : ℕ → Bytes)
      (files : ℤ → ProcFiles) (pid : ℤ) {process : NeoProcess D}
      → process_collect F page_size ticks_per_second getpwuid decimal files pid ≡ some process
      → Fits pid process
  unfolding process_collect
  process_collect-Fits page_size ticks_per_second getpwuid decimal files pid e =
      IfSome-some (Fits pid)
        (process_collect-IfSome page_size ticks_per_second getpwuid decimal files pid) e
