-- ===== src/App/Frame.antt =====
-- What an operation of the page does to React's state, and not to the rest: the client's functions
-- do nothing to it.
use umbra_chat.Prelude.{ℕ, String, Option, some, [], ◌∷◌, ◌++◌}
use umbra_chat.Identity.{IdentityBundle}
use umbra_chat.Platform.{Platform}
use umbra_chat.Exec.{Error, Result, ok, err, modify}
use umbra_chat.Exec.Keeps.{Keeps, Keeps-bind, keeps_rules}
use umbra_chat.World.{Io}
use umbra_chat.App.{
  Status, Ui, AppState, App, io, update, with_store, open_new_store, recover, try_catch,
}
use umbra_chat.App.Handlers.{message_of, set_error, caught, on_status}

module _ {P : Platform} where
  -- A property of React's state, as one of the page.
  pub record HasUi (Q : Ui → Type 0) (s : AppState P) : Type 0 where
    pub holds : Q s.ui

  module _ {Q : Ui → Type 0} where
    pub io-Keeps : {A : Type 0} (m : Io P A) → Keeps (HasUi Q) (io m)
    unfolding io
    io-Keeps m = record { at = λ s h. record { holds = h.holds } }

    pub with_store-Keeps : {A : Type 0} (n : ℕ) (m : Io P A) → Keeps (HasUi Q) (with_store n m)
    unfolding with_store
    with_store-Keeps n m = record { at = λ s h. record { holds = h.holds } }

    add_store-Keeps :
        Keeps
          (HasUi Q)
          (modify (λ (s : AppState P). record s { stores = s.stores ++ (s.world.store ∷ []) }))
    unfolding modify
    add_store-Keeps = record { at = λ s h. record { holds = h.holds } }

    pub open_new_store-Keeps : (i : IdentityBundle) → Keeps (HasUi Q) (open_new_store i)
    unfolding open_new_store
    open_new_store-Keeps i = search (keeps_rules, io-Keeps, add_store-Keeps)

    pub update-Keeps : (f : Ui → Ui) → ((u : Ui) → Q u → Q (f u)) → Keeps (HasUi Q) (update f)
    unfolding update modify
    update-Keeps f k = record { at = λ s h. record { holds = k s.ui h.holds } }

    pub on_status-Keeps :
        (f : Status → App P Unit)
        → ((status : Status) → Keeps (HasUi Q) (f status))
        → Keeps (HasUi Q) (on_status f)
    unfolding on_status
    on_status-Keeps f k = search (keeps_rules, k)

    recover-Keeps :
        (r : Result Unit) (t : AppState P) (handler : Error → App P Unit)
        → ((e : Error) → Keeps (HasUi Q) (handler e))
        → HasUi Q t
        → HasUi Q (recover r handler t).1
    recover-Keeps (ok a) t handler kh h = h
    recover-Keeps (err e) t handler kh h = (kh e).at t h

    pub try_catch-Keeps :
        (m : App P Unit) (handler : Error → App P Unit)
        → Keeps (HasUi Q) m
        → ((e : Error) → Keeps (HasUi Q) (handler e))
        → Keeps (HasUi Q) (try_catch m handler)
    unfolding try_catch
    try_catch-Keeps m handler km kh = record {
      at = λ s h. recover-Keeps (m s).0 (m s).1 handler kh (km.at s h);
    }

    pub caught-Keeps :
        (fallback : String) (m : App P Unit)
        → ((e : Option String) (u : Ui) → Q u → Q (set_error e u))
        → Keeps (HasUi Q) m
        → Keeps (HasUi Q) (caught fallback m)
    unfolding caught
    caught-Keeps fallback m k km =
        try_catch-Keeps m _ km (λ e. update-Keeps _ (k (some (message_of P fallback e))))

  pub ruleset page_rules =
      (keeps_rules, io-Keeps, with_store-Keeps, open_new_store-Keeps, on_status-Keeps)
