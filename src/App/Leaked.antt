-- ===== src/App/Leaked.antt =====
-- An interval that the page has lost track of, whatever happens to the others.
use umbra_chat.Prelude.{
  ◌≡◌, ◌≢◌, ap, sym, ◌∙◌, arith, ℕ, ◌<◌, Bool, inl, inr, some, List, [], ◌∷◌, ◌++◌, find, filter,
  not, nat_eq, Option-cases,
}
use umbra_chat.App.{Task, Interval, Ui, clear_interval, set_interval}
use umbra_chat.App.Polling.{Polls, polls_of, IsSchedule}

-- The interval `i` runs, and `pollTimer` does not name it.
pub record IsLeaked (i : Interval) (p : Polls) : Type 0 where
  pub runs : find (λ j. nat_eq j.number i.number) p.intervals ≡ some i
  pub unnamed : p.poll_timer ≢ some i.number
  pub older : i.number < p.next_interval

pub some-injective : {m n : ℕ} → some m ≡ some n → m ≡ n
some-injective h = cc h

find-append :
    (p : Interval → Bool) (is js : List Interval) (i : Interval)
    → find p is ≡ some i
    → find p (is ++ js) ≡ some i
find-append p [] js i h = cc
find-append p (x ∷ is) js i h = ground (arith, find-append p is js i)

find-filter_other :
    (n : ℕ) (i : Interval) (is : List Interval)
    → i.number ≢ n
    → find (λ j. nat_eq j.number i.number) is ≡ some i
    → find (λ j. nat_eq j.number i.number) (filter (λ j. not (nat_eq j.number n)) is) ≡ some i
find-filter_other n i [] other h = cc
find-filter_other n i (x ∷ is) other h = ground (arith, find-filter_other n i is other)

clear_interval-IsLeaked :
    (i : Interval) (u : Ui) → IsLeaked i (polls_of u) → IsLeaked i (polls_of (clear_interval u))
clear_interval-IsLeaked i u h = elim (Option-cases u.poll_timer) [
  | inl unset ↦ rw unset (record { runs = h.runs; unnamed = λ e. cc; older = h.older })
  | inr (n, is_set) ↦
      let other : i.number ≢ n = λ e. h.unnamed (is_set ∙ ap some (sym e)) in
      rw is_set (record {
        runs = find-filter_other n i u.intervals other h.runs;
        unnamed = λ e. other (some-injective (sym e));
        older = h.older;
      })
]

set_interval-IsLeaked :
    (i : Interval) (task : Task) (period : ℕ) (u : Ui)
    → IsLeaked i (polls_of u)
    → IsLeaked i (polls_of (set_interval task period u))
set_interval-IsLeaked i task period u h = record {
  runs = find-append _ u.intervals _ i h.runs;
  unnamed = λ e. omega (arith, h.older, some-injective e);
  older = omega (arith, h.older);
}

pub IsLeaked-IsSchedule : (i : Interval) → IsSchedule (IsLeaked i) (IsLeaked i)
IsLeaked-IsSchedule i = record {
  stop = λ u h.
      let k = clear_interval-IsLeaked i u h in
      record { runs = k.runs; unnamed = λ e. cc; older = k.older };
  start = set_interval-IsLeaked i;
  restart = λ task period u h.
      set_interval-IsLeaked i task period (clear_interval u) (clear_interval-IsLeaked i u h);
  weaken = λ p h. h;
}
