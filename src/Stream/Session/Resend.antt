-- ===== src/Stream/Session/Resend.antt =====
-- src/lib/reconnecting_stream.rs: how much of the queue `run_stream` sends again.
use mobiletunnel.Prelude.{
  ℕ, ◌≡◌, refl, ◌⊎◌, inl, inr, List, [], ◌∷◌, ◌++◌, map, arith, true, false, none, some, Bool-cases,
  Option-cases, ap, sym, append-nil, append_assoc, ◌∙◌,
}
use mobiletunnel.Stream.Codec.{data_msg, encode}
use mobiletunnel.Stream.Session.{looping, crashed, Session, leave, resend}
use mobiletunnel.Stream.Session.Effects.{active}

-- How much of the queue `resend` writes.
pub record Resent (s s' : Session) (payloads : List (List ℕ)) : Type 0 where
  pub front : List (List ℕ)
  pub rest : List (List ℕ)
  pub split : payloads ≡ front ++ rest
  pub same : s'.state ≡ s.state
  pub wrote : s'.written ≡ s.written ++ map data_msg front
  pub stands : ((s'.phase ≡ looping) × (rest ≡ [])) ⊎ (active s'.phase ≡ false)

resend_crashed :
    (s : Session) (p : List ℕ) (ps : List (List ℕ))
    → encode (data_msg p) ≡ none
    → resend s (p ∷ ps) ≡ record s { phase = crashed }
unfolding resend
resend_crashed s p ps e = ground arith

resend_refused :
    (s : Session) (p : List ℕ) (ps : List (List ℕ)) (bytes : List ℕ)
    → encode (data_msg p) ≡ some bytes
    → s.writer_open ≡ false
    → resend s (p ∷ ps) ≡ leave s
unfolding resend
resend_refused s p ps bytes e o = ground arith

pub resend_sent :
    (s : Session) (p : List ℕ) (ps : List (List ℕ)) (bytes : List ℕ)
    → encode (data_msg p) ≡ some bytes
    → s.writer_open ≡ true
    → resend s (p ∷ ps) ≡ resend (record s { written = s.written ++ (data_msg p ∷ []) }) ps
unfolding resend
resend_sent s p ps bytes e o = ground arith

nothing-Resent :
    (s s' : Session) (ps : List (List ℕ))
    → s'.state ≡ s.state
    → s'.written ≡ s.written
    → active s'.phase ≡ false
    → Resent s s' ps
nothing-Resent s s' ps a b c = record {
  front = [];
  rest = ps;
  split = refl;
  same = a;
  wrote = b ∙ sym (append-nil s.written);
  stands = inr c;
}

one_more :
    (s s' : Session) (p : List ℕ) (ps : List (List ℕ))
    → Resent (record s { written = s.written ++ (data_msg p ∷ []) }) s' ps
    → Resent s s' (p ∷ ps)
one_more s s' p ps r = record {
  front = p ∷ r.front;
  rest = r.rest;
  split = ap (◌∷◌ p) r.split;
  same = r.same;
  wrote = r.wrote ∙ append_assoc s.written (data_msg p ∷ []) (map data_msg r.front);
  stands = r.stands;
}

pub resend-Resent : (s : Session) (payloads : List (List ℕ)) → Resent s (resend s payloads) payloads
resend-Resent s [] = record {
  front = [];
  rest = [];
  split = refl;
  same = unfold resend in refl;
  wrote = unfold resend in (sym (append-nil s.written));
  stands = inl (unfold resend in refl, refl);
}
resend-Resent s (p ∷ ps) = elim (Option-cases (encode (data_msg p))) [
  | inl e ↦ rw (resend_crashed s p ps e) (nothing-Resent s _ (p ∷ ps) refl refl refl)
  | inr (bytes, e) ↦ elim (Bool-cases s.writer_open) [
    | inl o ↦ rw (resend_sent s p ps bytes e o) (
        one_more s _ p ps
          (resend-Resent (record s { written = s.written ++ (data_msg p ∷ []) }) ps))
    | inr o ↦ rw (resend_refused s p ps bytes e o) (
        nothing-Resent s (leave s) (p ∷ ps) (unfold leave in refl) (unfold leave in refl)
          (unfold leave in refl))
  ]
]
