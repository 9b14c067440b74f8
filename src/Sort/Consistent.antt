-- ===== src/Sort/Consistent.antt =====
-- The comparison is consistent, as `qsort` demands, among processes whose metrics are numbers.
use application_monitoring.Prelude.{
  ℕ, ℤ, pos, negsuc, ◌≡◌, ◌⊎◌, inl, inr, Bool, true, false, arith, ltb, leb_ℤ, ◌+◌, ◌-◌, ◌==◌,
  if◌then◌else◌, Bool-cases,
}
use application_monitoring.Double.{Double, IsOrdered}
use application_monitoring.Types.{
  NeoProcess, NeoSortMode, sort_cpu, sort_mem, sort_pid, sort_rss, sort_io_read, sort_io_write,
}
use application_monitoring.Sort.{by_pid, descending, compare_processes}

-- The result with its sign changed, for the results that the comparison has.
abbrev pub opposite : ℤ → ℤ
opposite (pos n) = if n == 0 then pos 0 else negsuc (n - 1)
opposite (negsuc n) = pos (n + 1)

-- What <stdlib.h> asks of a comparison over the items of which `P` holds.
pub record IsConsistent {A : Type 0} (P : A → Type 0) (cmp : A → A → ℤ) : Type 0 where
  pub antisym : (a b : A) → P a → P b → cmp a b ≡ opposite (cmp b a)
  pub trans :
      (a b c : A)
      → P a
      → P b
      → P c
      → leb_ℤ (cmp a b) (pos 0) ≡ true
      → leb_ℤ (cmp b c) (pos 0) ≡ true
      → leb_ℤ (cmp a c) (pos 0) ≡ true

module _ {D : Type 0} (F : Double D) where
  -- No sort key of the process is NaN.
  pub record HasNumbers (p : NeoProcess D) : Type 0 where
    pub cpu : F.is_nan p.cpu_percent ≡ false
    pub mem : F.is_nan p.mem_percent ≡ false
    pub io_read : F.is_nan p.io_read_mb_s ≡ false
    pub io_write : F.is_nan p.io_write_mb_s ≡ false

module _ {K : Type 0} (lt : K → K → Bool) where
  descending_antisym :
      (x y : K) (p q : ℤ)
      → (lt x y ≡ false) ⊎ (lt y x ≡ false)
      → p ≡ opposite q
      → descending lt x y p ≡ opposite (descending lt y x q)
  descending_antisym x y p q h e = ground arith

  -- The six comparisons of three keys decide.
  descending_trans :
      (x y z : K) (p q r : ℤ)
      → (lt x z ≡ true → (lt x y ≡ true) ⊎ (lt y z ≡ true))
      → (lt y x ≡ true → (lt y z ≡ true) ⊎ (lt z x ≡ true))
      → (lt z y ≡ true → (lt z x ≡ true) ⊎ (lt x y ≡ true))
      → (leb_ℤ p (pos 0) ≡ true → leb_ℤ q (pos 0) ≡ true → leb_ℤ r (pos 0) ≡ true)
      → leb_ℤ (descending lt x y p) (pos 0) ≡ true
      → leb_ℤ (descending lt y z q) (pos 0) ≡ true
      → leb_ℤ (descending lt x z r) (pos 0) ≡ true
  descending_trans x y z p q r s t u ties h k = ground (arith, s, t, u, ties)

module _ {D : Type 0} where
  by_pid_antisym : (a b : NeoProcess D) → by_pid a b ≡ opposite (by_pid b a)
  unfolding by_pid
  by_pid_antisym a b = ground arith

  by_pid_trans :
      (a b c : NeoProcess D)
      → leb_ℤ (by_pid a b) (pos 0) ≡ true
      → leb_ℤ (by_pid b c) (pos 0) ≡ true
      → leb_ℤ (by_pid a c) (pos 0) ≡ true
  unfolding by_pid
  by_pid_trans a b c h k = ground arith

module _ {D : Type 0} (F : Double D) (o : IsOrdered F) where
  lt_asym : (x y : D) → (F.lt x y ≡ false) ⊎ (F.lt y x ≡ false)
  lt_asym x y = elim (Bool-cases (F.lt x y)) [
    | inr e ↦ inl e
    | inl e ↦ elim (Bool-cases (F.lt y x)) [
      | inr f ↦ inr f
      | inl f ↦ cc (o.lt_irrefl x, o.lt_trans x y x e f)
    ]
  ]

  by_double_antisym :
      (x y : D) (a b : NeoProcess D)
      → descending F.lt x y (by_pid a b) ≡ opposite (descending F.lt y x (by_pid b a))
  by_double_antisym x y a b =
      descending_antisym F.lt x y (by_pid a b) (by_pid b a) (lt_asym x y) (by_pid_antisym a b)

  by_double_trans :
      (x y z : D) (a b c : NeoProcess D)
      → F.is_nan x ≡ false
      → F.is_nan y ≡ false
      → F.is_nan z ≡ false
      → leb_ℤ (descending F.lt x y (by_pid a b)) (pos 0) ≡ true
      → leb_ℤ (descending F.lt y z (by_pid b c)) (pos 0) ≡ true
      → leb_ℤ (descending F.lt x z (by_pid a c)) (pos 0) ≡ true
  by_double_trans x y z a b c nx ny nz =
      descending_trans F.lt x y z (by_pid a b) (by_pid b c) (by_pid a c) (o.lt_split x y z ny)
        (o.lt_split y z x nz) (o.lt_split z x y nx) (by_pid_trans a b c)

  by_rss_antisym :
      (x y : ℕ) (a b : NeoProcess D)
      → descending ltb x y (by_pid a b) ≡ opposite (descending ltb y x (by_pid b a))
  by_rss_antisym x y a b =
      descending_antisym ltb x y (by_pid a b) (by_pid b a) (ground arith) (by_pid_antisym a b)

  by_rss_trans :
      (x y z : ℕ) (a b c : NeoProcess D)
      → leb_ℤ (descending ltb x y (by_pid a b)) (pos 0) ≡ true
      → leb_ℤ (descending ltb y z (by_pid b c)) (pos 0) ≡ true
      → leb_ℤ (descending ltb x z (by_pid a c)) (pos 0) ≡ true
  by_rss_trans x y z a b c =
      descending_trans ltb x y z (by_pid a b) (by_pid b c) (by_pid a c) (λ h. ground arith)
        (λ h. ground arith) (λ h. ground arith) (by_pid_trans a b c)

  -- Every sort mode compares consistently among processes without NaN.
  pub compare_processes-IsConsistent :
      (mode : NeoSortMode) → IsConsistent (HasNumbers F) (λ a b. compare_processes F a b mode)
  unfolding compare_processes
  compare_processes-IsConsistent sort_cpu = record {
    antisym = λ a b p q. by_double_antisym a.cpu_percent b.cpu_percent a b;
    trans = λ a b c p q r. by_double_trans _ _ _ a b c p.cpu q.cpu r.cpu;
  }
  compare_processes-IsConsistent sort_mem = record {
    antisym = λ a b p q. by_double_antisym a.mem_percent b.mem_percent a b;
    trans = λ a b c p q r. by_double_trans _ _ _ a b c p.mem q.mem r.mem;
  }
  compare_processes-IsConsistent sort_pid = record {
    antisym = λ a b p q. by_pid_antisym a b;
    trans = λ a b c p q r. by_pid_trans a b c;
  }
  compare_processes-IsConsistent sort_rss = record {
    antisym = λ a b p q. by_rss_antisym a.rss_kb b.rss_kb a b;
    trans = λ a b c p q r. by_rss_trans a.rss_kb b.rss_kb c.rss_kb a b c;
  }
  compare_processes-IsConsistent sort_io_read = record {
    antisym = λ a b p q. by_double_antisym a.io_read_mb_s b.io_read_mb_s a b;
    trans = λ a b c p q r. by_double_trans _ _ _ a b c p.io_read q.io_read r.io_read;
  }
  compare_processes-IsConsistent sort_io_write = record {
    antisym = λ a b p q. by_double_antisym a.io_write_mb_s b.io_write_mb_s a b;
    trans = λ a b c p q r. by_double_trans _ _ _ a b c p.io_write q.io_write r.io_write;
  }

  -- In every sort mode, among processes without NaN, the comparison is what `qsort` asks for: swapping
  -- the two changes the sign of the result, and a process that compares at most equal to a second one,
  -- which compares at most equal to a third, compares at most equal to the third.
  pub compare_processes_consistent :
      (mode : NeoSortMode) (a b c : NeoProcess D)
      → HasNumbers F a
      → HasNumbers F b
      → HasNumbers F c
      → (compare_processes F a b mode ≡ opposite (compare_processes F b a mode))
        × ((leb_ℤ (compare_processes F a b mode) (pos 0) ≡ false)
            ⊎ (leb_ℤ (compare_processes F b c mode) (pos 0) ≡ false)
            ⊎ (leb_ℤ (compare_processes F a c mode) (pos 0) ≡ true))
  compare_processes_consistent mode a b c p q r =
      let consistent = compare_processes-IsConsistent mode in
      (
        consistent.antisym a b p q,
        elim (Bool-cases (leb_ℤ (compare_processes F a b mode) (pos 0))) [
          | inr e ↦ inl e
          | inl e ↦ elim (Bool-cases (leb_ℤ (compare_processes F b c mode) (pos 0))) [
            | inr f ↦ inr (inl f)
            | inl f ↦ inr (inr (consistent.trans a b c p q r e f))
          ]
        ],
      )
