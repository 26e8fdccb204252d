-- ===== src/AuthAbuse/Window.antt =====
-- How many attempts are let through within a window, over any sequence of attempts, successes and
-- failures in the order of time.
use nuvrail.Prelude.{
  ℕ, ◌+◌, ◌≤◌, ◌<◌, ◌≡◌, refl, Bool, true, false, List, [], ◌∷◌, ◌++◌, length, leb, ltb,
  if◌then◌else◌, arith, Bool-cases, inl, inr, length-append,
}
use nuvrail.Prelude.Text.{Text, Unicode, same, same_iff}
use nuvrail.AuthAbuse.{
  Limits, Protector, put, ip_key, account_key, prune, pruned, rate_checked, start_keys,
  start_attempt, record_success, record_failure, get_retry_seconds, lock_if, activate_lockout,
  FailureResult, fail_keys, AuthDecision,
}

-- How many entries are less than `window` before `n`.
abbrev pub recent : ℕ → ℕ → List ℕ → ℕ
recent window n [] = 0
recent window n (t ∷ ts) = (if ltb n (t + window) then 1 else 0) + recent window n ts

recent-append_one :
    (window n t : ℕ) (ts : List ℕ)
    → recent window n (ts ++ t ∷ []) ≡ recent window n ts + (if ltb n (t + window) then 1 else 0)
recent-append_one window n t [] = omega arith
recent-append_one window n t (u ∷ ts) = omega (arith, recent-append_one window n t ts)

recent-length : (window n : ℕ) (ts : List ℕ) → recent window n ts ≤ length ts
recent-length window n [] = omega arith
recent-length window n (t ∷ ts) = ground (arith, recent-length window n ts)

recent-prune :
    (now window n : ℕ) (ts : List ℕ)
    → now ≤ n
    → recent window n (prune now window ts) ≡ recent window n ts
unfolding prune
recent-prune now window n [] h = refl
recent-prune now window n (t ∷ ts) h = ground (arith, recent-prune now window n ts h)

length-prune : (now window : ℕ) (ts : List ℕ) → length (prune now window ts) ≤ length ts
unfolding prune
length-prune now window [] = omega arith
length-prune now window (t ∷ ts) = ground (arith, length-prune now window ts)

-- The bucket of a key counts every recent attempt that was let through, and is not too long.
record Fits (window limit now : ℕ) (bucket history : Text → List ℕ) : Type 0 where
  covers : (k : Text) (n : ℕ) → now ≤ n → recent window n (history k) ≤ recent window n (bucket k)
  bounded : (k : Text) → length (bucket k) ≤ limit

Fits-later :
    (window limit now later : ℕ) (bucket history : Text → List ℕ)
    → now ≤ later
    → Fits window limit now bucket history
    → Fits window limit later bucket history
Fits-later window limit now later bucket history le f = record {
  covers = λ k n h. f.covers k n (omega arith);
  bounded = f.bounded;
}

put-cases :
    (P : Text → List ℕ → Type 0) (key k : Text) (v : List ℕ) (d : Text → List ℕ)
    → P key v
    → P k (d k)
    → P k (put key v d k)
put-cases P key k v d hv hd = elim (Bool-cases (same key k)) [
  | inl e ↦ rw (e, ← (same_iff key k).0 e) hv
  | inr e ↦ rw e hd
]

Fits-prune :
    (window limit now : ℕ) (key : Text) (bucket history : Text → List ℕ)
    → Fits window limit now bucket history
    → Fits window limit now (put key (prune now window (bucket key)) bucket) history
Fits-prune window limit now key bucket history f = record {
  covers = λ k n h.
      put-cases (λ j b. recent window n (history j) ≤ recent window n b) key k _ bucket
        (rw (recent-prune now window n (bucket key) h) (f.covers key n h)) (f.covers k n h);
  bounded = λ k.
      put-cases (λ j b. length b ≤ limit) key k _ bucket
        (omega (arith, length-prune now window (bucket key), f.bounded key)) (f.bounded k);
}

covers-put :
    (window n t : ℕ) (key k : Text) (bucket history : Text → List ℕ)
    → recent window n (history key) ≤ recent window n (bucket key)
    → recent window n (history k) ≤ recent window n (bucket k)
    → recent window n (put key (history key ++ t ∷ []) history k)
      ≤ recent window n (put key (bucket key ++ t ∷ []) bucket k)
covers-put window n t key k bucket history hk h = elim (Bool-cases (same key k)) [
  | inl e ↦
      rw (e, recent-append_one window n t (history key), recent-append_one window n t (bucket key))
        (omega arith)
  | inr e ↦ rw e h
]

Fits-append :
    (window limit now : ℕ) (key : Text) (bucket history : Text → List ℕ)
    → length (bucket key) < limit
    → Fits window limit now bucket history
    → Fits window limit now
        (put key (bucket key ++ now ∷ []) bucket)
        (put key (history key ++ now ∷ []) history)
Fits-append window limit now key bucket history room f = record {
  covers =
      λ k n h. covers-put window n now key k bucket history (f.covers key n h) (f.covers k n h);
  bounded = λ k.
      put-cases (λ j b. length b ≤ limit) key k _ bucket
        (rw (length-append (bucket key) (now ∷ [])) (omega arith)) (f.bounded k);
}

-- The protector, and the times of all attempts that were let through, by address and by account.
pub record Trace : Type 0 where
  pub protector : Protector
  pub by_ip : Text → List ℕ
  pub by_account : Text → List ℕ

pub data Step : Type 0 where
  attempt failure : ℕ → Text → Text → Step
  success : Text → Text → Step

abbrev noted : Text → Text → ℕ → Trace → Protector × AuthDecision → Trace
noted ip account now t (p, d) =
    if d.is_allowed
    then record {
      protector = p;
      by_ip = put ip (t.by_ip ip ++ now ∷ []) t.by_ip;
      by_account = put account (t.by_account account ++ now ∷ []) t.by_account;
    }
    else record t { protector = p }

abbrev pub advance : Unicode → Limits → Step → Trace → Trace
advance uni l (attempt now ip account) t =
    noted (ip_key ip) (account_key uni account) now t
      (start_attempt uni l now ip account t.protector)
advance uni l (failure now ip account) t = record t {
  protector = (record_failure uni l now ip account t.protector).0;
}
advance uni l (success ip account) t = record t {
  protector = record_success uni ip account t.protector;
}

abbrev pub advance_all : Unicode → Limits → List Step → Trace → Trace
advance_all uni l [] t = t
advance_all uni l (c ∷ cs) t = advance_all uni l cs (advance uni l c t)

-- The clock does not run backwards.
abbrev pub time_of : ℕ → Step → ℕ
time_of now (attempt t ip account) = t
time_of now (failure t ip account) = t
time_of now (success ip account) = now

abbrev pub IsOrdered : ℕ → List Step → Type 0
IsOrdered now [] = Unit
IsOrdered now (c ∷ cs) = (now ≤ time_of now c) × IsOrdered (time_of now c) cs

abbrev pub end_time : ℕ → List Step → ℕ
end_time now [] = now
end_time now (c ∷ cs) = end_time (time_of now c) cs

record Holds (l : Limits) (now : ℕ) (t : Trace) : Type 0 where
  ip :
      Fits l.attempt_window_seconds l.max_attempts_per_ip_window now t.protector.attempts_by_ip
        t.by_ip
  account :
      Fits l.attempt_window_seconds l.max_attempts_per_account_window now
        t.protector.attempts_by_account t.by_account

module _ (l : Limits) (ip account : Text) (now : ℕ) where
  pruned-Holds :
      (t : Trace)
      → Holds l now t
      → Holds l now (record t { protector = pruned l ip account now t.protector })
  pruned-Holds t h = record {
    ip = Fits-prune _ _ now ip _ t.by_ip h.ip;
    account = Fits-prune _ _ now account _ t.by_account h.account;
  }

  rate_checked-Holds :
      (t : Trace)
      → Holds l now t
      → Holds l now (noted ip account now t (rate_checked l ip account now t.protector))
  unfolding rate_checked
  rate_checked-Holds t h =
      elim (Bool-cases
        (leb l.max_attempts_per_ip_window (length (t.protector.attempts_by_ip ip)))) [
          | inl e ↦ rw e h
          | inr e ↦
              elim (Bool-cases (
                leb l.max_attempts_per_account_window
                  (length (t.protector.attempts_by_account account)))) [
                    | inl d ↦ rw (e, d) h
                    | inr d ↦
                        rw (e, d)
                          (record {
                            ip = Fits-append _ _ now ip _ t.by_ip (ground arith) h.ip;
                            account =
                                Fits-append _ _ now account _ t.by_account (ground arith) h.account;
                          })
                  ]
        ]

  start_keys-Holds :
      (t : Trace)
      → Holds l now t
      → Holds l now (noted ip account now t (start_keys l ip account now t.protector))
  start_keys-Holds t h = elim (Bool-cases (ltb 0 (get_retry_seconds t.protector ip now))) [
    | inl e ↦ rw e h
    | inr e ↦ elim (Bool-cases (ltb 0 (get_retry_seconds t.protector account now))) [
      | inl d ↦ rw (e, d) h
      | inr d ↦
          rw (e, d)
            (rate_checked-Holds (record t { protector = pruned l ip account now t.protector })
              (pruned-Holds t h))
    ]
  ]

lock_if-Holds :
    (l : Limits) (b : Bool) (key : Text) (now at : ℕ) (pr : Protector × FailureResult) (t : Trace)
    → Holds l at (record t { protector = pr.0 })
    → Holds l at (record t { protector = (lock_if l b key now pr).0 })
unfolding activate_lockout
lock_if-Holds l false key now at (p, r) t h = h
lock_if-Holds l true key now at (p, r) t h = record { ip = h.ip; account = h.account }

fail_keys-Holds :
    (l : Limits) (ip account : Text) (now at : ℕ) (t : Trace)
    → Holds l at t
    → Holds l at (record t { protector = (fail_keys l ip account now t.protector).0 })
fail_keys-Holds l ip account now at t h =
    lock_if-Holds l _ account now at _ t
      (lock_if-Holds l _ ip now at _ t (record { ip = h.ip; account = h.account }))

Holds-later :
    (l : Limits) (now later : ℕ) (t : Trace) → now ≤ later → Holds l now t → Holds l later t
Holds-later l now later t le h = record {
  ip = Fits-later _ _ now later _ _ le h.ip;
  account = Fits-later _ _ now later _ _ le h.account;
}

advance-Holds :
    (uni : Unicode) (l : Limits) (now : ℕ) (c : Step) (t : Trace)
    → now ≤ time_of now c
    → Holds l now t
    → Holds l (time_of now c) (advance uni l c t)
unfolding start_attempt record_failure record_success
advance-Holds uni l now (attempt at ip account) t le h =
    start_keys-Holds l (ip_key ip) (account_key uni account) at t (Holds-later l now at t le h)
advance-Holds uni l now (failure at ip account) t le h =
    fail_keys-Holds l (ip_key ip) (account_key uni account) at at t (Holds-later l now at t le h)
advance-Holds uni l now (success ip account) t le h = record { ip = h.ip; account = h.account }

advance_all-Holds :
    (uni : Unicode) (l : Limits) (now : ℕ) (cs : List Step) (t : Trace)
    → IsOrdered now cs
    → Holds l now t
    → Holds l (end_time now cs) (advance_all uni l cs t)
advance_all-Holds uni l now [] t o h = h
advance_all-Holds uni l now (c ∷ cs) t o h =
    advance_all-Holds uni l (time_of now c) cs (advance uni l c t) o.1
      (advance-Holds uni l now c t o.0 h)

abbrev pub new_protector : Protector
new_protector = record {
  attempts_by_ip = λ k. [];
  attempts_by_account = λ k. [];
  failures_by_ip = λ k. [];
  failures_by_account = λ k. [];
  lockout_until = λ k. 0;
  lockout_count = λ k. 0;
}

abbrev pub at_start : Trace
at_start = record { protector = new_protector; by_ip = λ k. []; by_account = λ k. [] }

at_start-Holds : (l : Limits) (now : ℕ) → Holds l now at_start
at_start-Holds l now = record {
  ip = record { covers = λ k n h. omega arith; bounded = λ k. omega arith };
  account = record { covers = λ k n h. omega arith; bounded = λ k. omega arith };
}

Fits-recent :
    (window limit now n : ℕ) (bucket history : Text → List ℕ) (k : Text)
    → now ≤ n
    → Fits window limit now bucket history
    → recent window n (history k) ≤ limit
Fits-recent window limit now n bucket history k le f =
    omega (arith, f.covers k n le, recent-length window n (bucket k), f.bounded k)

-- Whatever attempts, failures and successes follow one another in the order of time, of the attempts
-- that were let through for one address, or for one account, no more than its limit lie within the
-- window that ends at the last of them or later.
pub recent-advance_all :
    (uni : Unicode) (l : Limits) (cs : List Step) (now n : ℕ) (ip account : Text)
    → IsOrdered now cs
    → end_time now cs ≤ n
    → (recent l.attempt_window_seconds n ((advance_all uni l cs at_start).by_ip (ip_key ip))
        ≤ l.max_attempts_per_ip_window)
      × (recent l.attempt_window_seconds n
            ((advance_all uni l cs at_start).by_account (account_key uni account))
          ≤ l.max_attempts_per_account_window)
recent-advance_all uni l cs now n ip account o le =
    let h = advance_all-Holds uni l now cs at_start o (at_start-Holds l now) in
    (
      Fits-recent _ _ (end_time now cs) n _ _ (ip_key ip) le h.ip,
      Fits-recent _ _ (end_time now cs) n _ _ (account_key uni account) le h.account,
    )
