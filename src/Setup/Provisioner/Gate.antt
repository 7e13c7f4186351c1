-- ===== src/Setup/Provisioner/Gate.antt =====
-- What a request can do to the node (`do_POST` and `_serve` of agent/provisioner.py).
use hadcd_agent.Base.{
  suc, ◌≡◌, ◌≢◌, refl, sym, ap, Bool, false, ◌&&◌, ◌⊎◌, inl, inr, true, Option, none, some, List,
  [], ◌∷◌, All, arith, Bool-cases, Option-cases,
}
use mathlib.Core.Path.{subst}
use mathlib.Core.Bool.{true≢false}
use hadcd_agent.Base.Int.{ℤ}
use hadcd_agent.Base.Text.{Text, text_eq, text_eq_sound, strip, codes}
use hadcd_agent.Agent.EnvFile.{Config, find}
use hadcd_agent.Setup.EnvText.{read_env}
use hadcd_agent.Setup.EnvText.Updates.{overlay, env_text-updates}
use hadcd_agent.Setup.Provisioner.{Form, text_of, collect_updates}
use hadcd_agent.Setup.Provisioner.Form.{IsPlainForm}
use hadcd_agent.Setup.Provisioner.Updates.{collect-AreEntries}
use hadcd_agent.Setup.Provisioner.Server.{
  Node, Write, refused, replaced, stuck, unanswered, written, Post, Gate, opens, refuses, raises,
  is_ascii, is_oversized, check_code, source_of, finish_save, save, pass_gate, route, admit,
  do_post, Round, silence, get, receives, serve,
}

-- The new file's dictionary is the old one, or the template's, updated with what the form gives.
abbrev pub IsUpdated : Option Text → Form → Node → Node → Type 0
IsUpdated template form before now =
    (updates : Config) × (collect_updates form ≡ some updates)
    × ((k : Text)
        → find k (read_env now.env)
          ≡ overlay (find k updates) (find k (read_env (source_of template before.env))))

-- How a request may leave the node: as it was; or with the gate open and the file updated, without a
-- restart, or with one, which ends the loop unless the reply could not be sent.
abbrev pub IsStep : Option Text → Option Text → Form → Node → Node → Type 0
IsStep code template form before now =
    (now ≡ before)
    ⊎ ((check_code code form ≡ opens)
        × IsUpdated template form before now
        × (((now.restarts ≡ before.restarts) × (now.is_done ≡ before.is_done))
            ⊎ ((now.restarts ≡ suc before.restarts)
                × ((now.is_done ≡ true) ⊎ (now.is_done ≡ before.is_done)))))

abbrev is_shut : Gate → Bool
is_shut opens = false
is_shut refuses = true
is_shut raises = true

module _ (code template : Option Text) where
  finish-IsStep :
      (form : Form) (w : Write) (updates : Config) (node : Node)
      → IsPlainForm form
      → check_code code form ≡ opens
      → collect_updates form ≡ some updates
      → IsStep code template form node (finish_save template w updates node).1
  unfolding finish_save
  finish-IsStep form refused updates node h o e = inl refl
  finish-IsStep form replaced updates node h o e = inr (
    o,
    (
      updates,
      e,
      λ k.
          env_text-updates updates (source_of template node.env) k
            (collect-AreEntries form updates h e),
    ),
    inl (refl, refl),
  )
  finish-IsStep form stuck updates node h o e = inr (
    o,
    (
      updates,
      e,
      λ k.
          env_text-updates updates (source_of template node.env) k
            (collect-AreEntries form updates h e),
    ),
    inl (refl, refl),
  )
  finish-IsStep form unanswered updates node h o e = inr (
    o,
    (
      updates,
      e,
      λ k.
          env_text-updates updates (source_of template node.env) k
            (collect-AreEntries form updates h e),
    ),
    inr (refl, inr refl),
  )
  finish-IsStep form written updates node h o e = inr (
    o,
    (
      updates,
      e,
      λ k.
          env_text-updates updates (source_of template node.env) k
            (collect-AreEntries form updates h e),
    ),
    inr (refl, inl refl),
  )

  save-IsStep :
      (post : Post) (node : Node)
      → IsPlainForm post.form
      → check_code code post.form ≡ opens
      → IsStep code template post.form node (save template post node).1
  unfolding save
  save-IsStep post node h o = elim (Option-cases (collect_updates post.form)) [
    | inl bad ↦ rw (save, bad) (inl refl)
    | inr (updates, good) ↦
        let end : save template post node ≡ finish_save template post.write updates node =
          rw (save, good) refl in
        subst (λ r. IsStep code template post.form node r.1) (sym end)
          (finish-IsStep post.form post.write updates node h o good)
  ]

  gate-IsStep :
      (g : Gate) (post : Post) (node : Node)
      → IsPlainForm post.form
      → check_code code post.form ≡ g
      → IsStep code template post.form node (pass_gate g template post node).1
  unfolding pass_gate
  gate-IsStep raises post node h o = inl refl
  gate-IsStep refuses post node h o = inl refl
  gate-IsStep opens post node h o = save-IsStep post node h o

  route-IsStep :
      (post : Post) (node : Node)
      → IsPlainForm post.form
      → IsStep code template post.form node (route code template post node).1
  unfolding route
  route-IsStep post node h = elim (Bool-cases (text_eq post.path (codes "/save"))) [
    | inl here ↦
        let end : route code template post node
            ≡ pass_gate (check_code code post.form) template post node =
          rw (route, here) refl in
        subst (λ r. IsStep code template post.form node r.1) (sym end)
          (gate-IsStep (check_code code post.form) post node h refl)
    | inr other ↦ rw (route, other) (inl refl)
  ]

  admit-IsStep :
      (length : Option ℤ) (post : Post) (node : Node)
      → IsPlainForm post.form
      → IsStep code template post.form node (admit length code template post node).1
  unfolding admit
  admit-IsStep none post node h = inl refl
  admit-IsStep (some n) post node h = elim (Bool-cases (is_oversized n)) [
    | inl large ↦ rw (admit, large) (inl refl)
    | inr small ↦ rw (admit, small) (route-IsStep post node h)
  ]

  -- Any POST whose values have no line break beyond ASCII leaves the node as it is, or it passed the
  -- gate and its form was accepted: then the file's dictionary is the old one, or the template's,
  -- updated with the form's values and nothing else, and the agent is restarted once or not at all.
  -- Without a restart the POST does not end the server's loop.
  pub do_post-IsStep :
      (post : Post) (node : Node)
      → IsPlainForm post.form
      → IsStep code template post.form node (do_post code template post node).1
  unfolding do_post
  do_post-IsStep post node h = admit-IsStep post.length post node h

  gate-stranger :
      (g : Gate) (post : Post) (node : Node) → g ≢ opens → (pass_gate g template post node).1 ≡ node
  unfolding pass_gate
  gate-stranger raises post node n = refl
  gate-stranger refuses post node n = refl
  gate-stranger opens post node n = absurd (n refl)

  do_post-stranger :
      (post : Post) (node : Node)
      → check_code code post.form ≢ opens
      → (do_post code template post node).1 ≡ node
  unfolding do_post admit route
  do_post-stranger post node n =
      grind (arith, gate-stranger (check_code code post.form) post node n)

module _ (code : Text) (template : Option Text) where
  -- A request that does not give the code of the node: without the blanks around it, the field
  -- `setup_code` of its form is another text, or empty where the form has none.
  abbrev pub IsStranger : Round → Type 0
  IsStranger silence = Unit
  IsStranger get = Unit
  IsStranger (receives post) = strip (text_of (find (codes "setup_code") post.form)) ≢ code

  stranger-stays :
      (form : Form)
      → strip (text_of (find (codes "setup_code") form)) ≢ code
      → check_code (some code) form ≢ opens
  unfolding check_code
  stranger-stays form other =
      elim (Bool-cases
        (is_ascii (strip (text_of (find (codes "setup_code") form))) && is_ascii code)) [
          | inl plain ↦
              elim (Bool-cases (text_eq (strip (text_of (find (codes "setup_code") form))) code)) [
                | inl same ↦ absurd (
                    other
                      (text_eq_sound (strip (text_of (find (codes "setup_code") form))) code same))
                | inr differs ↦ rw (check_code, plain, differs) (λ e. true≢false (ap is_shut e))
              ]
          | inr odd ↦ rw (check_code, odd) (λ e. true≢false (ap is_shut e))
        ]

  -- Where the node has a setup code, a run of the server in which no form gives it leaves the node
  -- as it was, whatever else is posted.
  pub serve-stranger :
      (rounds : List Round) (node : Node)
      → All IsStranger rounds
      → serve (some code) template rounds node ≡ node
  unfolding serve
  serve-stranger [] node h = refl
  serve-stranger (silence ∷ rs) node (u, h) = ground (arith, serve-stranger rs node h)
  serve-stranger (get ∷ rs) node (u, h) = ground (arith, serve-stranger rs node h)
  serve-stranger (receives post ∷ rs) node (u, h) =
      rw (do_post-stranger (some code) template post node (stranger-stays post.form u))
        (ground (arith, serve-stranger rs node h))
