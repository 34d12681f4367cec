-- ===== src/Ocpp/Socket/Replies.antt =====
-- Every call of a charger is answered once, under its id and in order, until the connection ends.
use evaggregator.Ocpp.Socket.{Node, Received, Turn, go_on, receive, receive_all, torn_down}
use evaggregator.Ocpp.Socket.Outcomes.{
  expected, expected_all, raises_uncaught, receive-Outcome, reply_id,
}
use evaggregator.Ocpp.Handlers.{Origin}
use evaggregator.Ocpp.Authorization.{AuthStatus}
use evaggregator.Base.{
  List, Option, [], ap, inl, inr, map, refl, subst, sym, true, ℕ, ◌++◌, ◌∙◌, ◌∷◌, ◌≡◌, ◌⊎◌,
}
use mathlib.Core.List.{append-nil, append_assoc}

module _ {T : Type 0} (roaming_check : ℕ → T → AuthStatus × T) (interval : ℕ) where
  -- Where a connection breaks off: the frames before it were answered, and this one raises what the
  -- loop does not catch.
  pub record BrokenOff (connection : ℕ) (xs : List (Origin × Received)) (s t : Node T)
      : Type 0 where
    pub before : List (Origin × Received)
    pub after : List (Origin × Received)
    pub origin : Origin
    pub frame : Received
    pub splits : xs ≡ before ++ (origin, frame) ∷ after
    pub raises :
        raises_uncaught frame
          (receive_all roaming_check interval connection before s).1.gateway.transactions
        ≡ true
    pub answered : map reply_id t.written ≡ map reply_id s.written ++ expected_all before

  abbrev Answered : ℕ → List (Origin × Received) → Node T → Turn × Node T → Type 0
  Answered connection xs s (turn, t) =
      ((turn ≡ go_on) × (map reply_id t.written ≡ map reply_id s.written ++ expected_all xs))
      ⊎ ((turn ≡ torn_down) × BrokenOff connection xs s t)

  goes_on :
      (connection : ℕ) (o : Origin) (x : Received) (xs : List (Origin × Received)) (s : Node T)
      → (receive roaming_check interval connection o x s).0 ≡ go_on
      → receive_all roaming_check interval connection ((o, x) ∷ xs) s
        ≡ receive_all roaming_check interval connection xs
            (receive roaming_check interval connection o x s).1
  unfolding receive_all
  goes_on connection o x xs s h = rw (h, receive_all) refl

  breaks_off :
      (connection : ℕ) (o : Origin) (x : Received) (xs : List (Origin × Received)) (s : Node T)
      → (receive roaming_check interval connection o x s).0 ≡ torn_down
      → receive_all roaming_check interval connection ((o, x) ∷ xs) s
        ≡ (torn_down, (receive roaming_check interval connection o x s).1)
  unfolding receive_all
  breaks_off connection o x xs s h = rw (h, receive_all) refl

  -- Answers to one frame, followed by those to the next ones.
  chained : (a b c d e : List (Option ℕ)) → a ≡ b ++ c → b ≡ d ++ e → a ≡ d ++ (e ++ c)
  chained a b c d e p q = p ∙ ap (λ l. l ++ c) q ∙ append_assoc d e c

  preceded :
      (connection : ℕ) (o : Origin) (x : Received) (xs : List (Origin × Received)) (s t : Node T)
      → (receive roaming_check interval connection o x s).0 ≡ go_on
      → map reply_id (receive roaming_check interval connection o x s).1.written
        ≡ map reply_id s.written ++ expected x
      → BrokenOff connection xs (receive roaming_check interval connection o x s).1 t
      → BrokenOff connection ((o, x) ∷ xs) s t
  preceded connection o x xs s t going wrote_x b =
      let s' = (receive roaming_check interval connection o x s).1 in
      record {
        before = (o, x) ∷ b.before;
        after = b.after;
        origin = b.origin;
        frame = b.frame;
        splits = ap (λ l. (o, x) ∷ l) b.splits;
        raises =
            subst (λ r. raises_uncaught b.frame r.1.gateway.transactions ≡ true)
              (sym (goes_on connection o x b.before s going)) b.raises;
        answered =
            chained (map reply_id t.written) (map reply_id s'.written) (expected_all b.before)
              (map reply_id s.written) (expected x) b.answered wrote_x;
      }

  -- Every call that a charger sends on a connection is answered exactly once, under its own id and in
  -- the order of the calls, a malformed frame is answered by an error under no id, and the answers to
  -- the gateway's own calls are not answered. This goes on to the last frame, unless one raises what
  -- the loop does not catch: it is no JSON text, it answers under an id that is a list or an object, its
  -- payload cannot be read for a reason that is no ValueError, KeyError or TypeError, or it stops a
  -- transaction that the gateway does not know. This frame is not answered and ends the connection.
  pub answered_in_order :
      (connection : ℕ) (xs : List (Origin × Received)) (s : Node T)
      → let (turn, t) = receive_all roaming_check interval connection xs s in
        ((turn ≡ go_on) × (map reply_id t.written ≡ map reply_id s.written ++ expected_all xs))
        ⊎ ((turn ≡ torn_down) × BrokenOff connection xs s t)
  unfolding receive_all
  answered_in_order connection [] s = inl (refl, sym (append-nil (map reply_id s.written)))
  answered_in_order connection ((o, x) ∷ xs) s =
      elim (receive-Outcome roaming_check interval connection o x s) [
        | inl h ↦
            let s' = (receive roaming_check interval connection o x s).1 in
            subst (Answered connection ((o, x) ∷ xs) s) (sym (goes_on connection o x xs s h.0))
              (elim (answered_in_order connection xs s') [
                | inl k ↦ inl (
                  k.0,
                  chained
                      (map reply_id (receive_all roaming_check interval connection xs s').1.written)
                      (map reply_id s'.written) (expected_all xs) (map reply_id s.written)
                      (expected x) k.1 h.2,
                )
                | inr k ↦ inr (k.0, preceded connection o x xs s _ h.0 h.2 k.1)
              ])
        | inr h ↦
            subst (Answered connection ((o, x) ∷ xs) s) (sym (breaks_off connection o x xs s h.0)) (
              inr (
                refl,
                record {
                  before = [];
                  after = xs;
                  origin = o;
                  frame = x;
                  splits = refl;
                  raises = h.1;
                  answered =
                      ap (λ l. map reply_id l) h.2 ∙ sym (append-nil (map reply_id s.written));
                },
              ))
      ]
