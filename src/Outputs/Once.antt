-- ===== src/Outputs/Once.antt =====
-- src/lib.rs: what a node's context or an external node has put out after several calls.

use accumulator.Common.{
  ◌≡◌, refl, sym, ap, ◌∙◌, Bool, true, false, not, ◌&&◌, ◌||◌, List, [], ◌∷◌, ◌++◌, append_assoc,
  append_nil, arith, if◌then◌else◌, if-known,
}
use accumulator.Common.Words.{fetch_add}
use accumulator.Errors.{InternalFault}
use accumulator.Supervisor.{InternalFailure, internal_message}
use accumulator.Outputs.Emit.{Seen, Runtime, Emitter, report_closed, put_out}

abbrev pub taken : {T : Type 0} → List (Seen × T) → List T
taken [] = []
taken ((seen, output) ∷ calls) =
    let rest = taken calls in if seen.accepts then output ∷ rest else rest

module _ {E : Type 0} (fault : InternalFault) where
  -- The failure that goes with setting the abort flag.
  abbrev pub told : Runtime E → Runtime E → List (InternalFailure E)
  told before after =
      if not before.aborted && after.aborted then internal_message fault ∷ [] else []

  -- A flag that was set stays set, and a failure goes with setting it.
  pub record Tells (before after : Runtime E) : Type 0 where
    pub stays : (not before.aborted || after.aborted) ≡ true
    pub tells : after.failures ≡ before.failures ++ told before after

  told-same : (r : Runtime E) → told r r ≡ []
  told-same r = ground arith

  Tells-same : (r : Runtime E) → Tells r r
  Tells-same r = record {
    stays = ground arith;
    tells = sym (append_nil r.failures) ∙ ap (◌++◌ r.failures) (sym (told-same r));
  }

  Tells-report_closed : (seen : Seen) (r : Runtime E) → Tells r (report_closed seen fault r)
  unfolding report_closed
  Tells-report_closed seen r =
      if-known (Tells r) (not seen.shutdown && not (r.aborted || seen.abort))
        (λ h.
          let fresh : r.aborted ≡ false = ground arith in
          record { stays = ground arith; tells = rw fresh refl })
        (λ h. Tells-same r)

  told_if : Bool → Bool → List (InternalFailure E)
  told_if x y = if not x && y then internal_message fault ∷ [] else []

  told_if_trans :
      (x y z : Bool)
      → (not x || y) ≡ true
      → (not y || z) ≡ true
      → told_if x y ++ told_if y z ≡ told_if x z
  unfolding told_if
  told_if_trans true true z h k = refl
  told_if_trans true false z h k = cc
  told_if_trans false true true h k = refl
  told_if_trans false true false h k = cc
  told_if_trans false false z h k = refl

  Tells-trans : (a b c : Runtime E) → Tells a b → Tells b c → Tells a c
  unfolding told_if
  Tells-trans a b c p q = record {
    stays = let h = p.stays in let k = q.stays in ground arith;
    tells =
        q.tells
        ∙ ap (λ l. l ++ told b c) p.tells
        ∙ append_assoc a.failures (told a b) (told b c)
        ∙ ap (◌++◌ a.failures) (told_if_trans a.aborted b.aborted c.aborted p.stays q.stays);
  }

module _ {E T : Type 0} (fault : InternalFault) where
  abbrev pub put_out_all : List (Seen × T) → Emitter E T → Emitter E T
  put_out_all [] e = e
  put_out_all ((seen, output) ∷ calls) e = put_out_all calls (put_out seen fault output e).1

  -- The first call of several, by whether the link takes its output.
  abbrev after : Seen → T → Emitter E T → Bool → Emitter E T
  after seen output e accepts =
      let p : Bool × Emitter E T =
        if accepts
        then (true, record e { sent = e.sent ++ output ∷ []; arrivals = fetch_add e.arrivals 1 })
        else (false, record e { runtime = report_closed seen fault e.runtime }) in
      p.1

  -- Whatever outputs a node's context or an external node puts out, each with what it sees of the
  -- link and the flags: the link gets those that it takes, in order, and the component sends one
  -- failure if these calls set the abort flag, and none otherwise.
  pub put_out_all-Tells :
      (calls : List (Seen × T)) (e : Emitter E T)
      → ((put_out_all calls e).sent ≡ e.sent ++ taken calls)
        × Tells fault e.runtime (put_out_all calls e).runtime
  unfolding put_out
  put_out_all-Tells [] e = (sym (append_nil e.sent), Tells-same fault e.runtime)
  put_out_all-Tells ((seen, output) ∷ calls) e = go seen.accepts (put_out_all-Tells calls)
    where
      go :
          (accepts : Bool)
          → ((d : Emitter E T)
              → ((put_out_all calls d).sent ≡ d.sent ++ taken calls)
                × Tells fault d.runtime (put_out_all calls d).runtime)
          → ((put_out_all calls (after seen output e accepts)).sent
              ≡ e.sent ++ (if accepts then output ∷ taken calls else taken calls))
            × Tells fault e.runtime (put_out_all calls (after seen output e accepts)).runtime
      go true k =
          let (s, t) = k (after seen output e true) in
          (s ∙ append_assoc e.sent (output ∷ []) (taken calls), t)
      go false k =
          let (s, t) = k (after seen output e false) in
          (s, Tells-trans fault _ _ _ (Tells-report_closed fault seen e.runtime) t)
