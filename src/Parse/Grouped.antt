-- ===== src/Parse/Grouped.antt =====
-- sh.parse.c: the depth of parentheses in the words of a level, and the pointers `lp` and `rp` of
-- `syn3`.
use mcsh.Base.{
  ℕ, zero, suc, ◌≤◌, Bool, true, false, not, ◌&&◌, ◌||◌, Option, none, some, List, [], ◌∷◌, ◌==◌,
  if◌then◌else◌, Str, codes, eq, eq_iff, char0, char1, ℤ, pos, negsuc, length, ◌≡◌, ◌≢◌, refl,
  arith, subst, sym, ◌∙◌,
}
use mcsh.Parse.Command.{
  SynError, bad_plp, mis_red, out_red, in_red, red_par, SetErr, seterror, Context, inc, dec, depth,
  is_zero, relpar,
}
use mcsh.Parse.Simple.{
  Loop, Mode, between, behind_out, behind_both, behind_bang, behind_in, save_words, step_in, at_end,
  word_between, set_err, open_paren, close_paren, out_file, in_file, bang_or_file, both, is_some,
  save,
}
use mcsh.Parse.Syntax.{between_pointers}

-- The depth behind the words.
unfoldable pub level : ℤ → List Str → ℤ
level l [] = l
level l (w ∷ ws) = level (depth w l) ws

pub NotAbove : ℤ → Type 0
NotAbove (pos zero) = Unit
NotAbove (pos (suc n)) = ⊥
NotAbove (negsuc n) = Unit

pub Above : ℤ → Type 0
Above (pos zero) = ⊥
Above (pos (suc n)) = Unit
Above (negsuc n) = ⊥

-- `lp` and `rp` with `n` words to come: no group yet, in the group, or behind it.
pub Shape : ℕ → ℤ → Option (List Str) → Option (List Str) → Type 0
Shape n l none none = NotAbove l
Shape n l none (some rp) = ⊥
Shape n l (some lp) none = Above l × (n ≤ length lp)
Shape n l (some lp) (some rp) = NotAbove l × (length rp ≤ length lp)

Shape-weaken : (n : ℕ) (l : ℤ) (lp rp : Option (List Str)) → Shape (suc n) l lp rp → Shape n l lp rp
unfolding Shape
Shape-weaken n l none none h = h
Shape-weaken n l none (some rp) h = h
Shape-weaken n l (some lp) none h = (h.0, omega (arith, h.1))
Shape-weaken n l (some lp) (some rp) h = h

Shape-inc :
    (n : ℕ) (l : ℤ) (lp rp : Option (List Str))
    → is_zero l ≡ false
    → Shape n l lp rp
    → Shape n (inc l) lp rp
unfolding Shape NotAbove Above
Shape-inc n (pos zero) lp rp e h = cc e
Shape-inc n (pos (suc k)) none none e h = absurd h
Shape-inc n (pos (suc k)) none (some rp) e h = h
Shape-inc n (pos (suc k)) (some lp) none e h = h
Shape-inc n (pos (suc k)) (some lp) (some rp) e h = absurd (h.0)
Shape-inc n (negsuc zero) none none e h = tt
Shape-inc n (negsuc zero) none (some rp) e h = h
Shape-inc n (negsuc zero) (some lp) none e h = absurd (h.0)
Shape-inc n (negsuc zero) (some lp) (some rp) e h = h
Shape-inc n (negsuc (suc k)) none none e h = tt
Shape-inc n (negsuc (suc k)) none (some rp) e h = h
Shape-inc n (negsuc (suc k)) (some lp) none e h = absurd (h.0)
Shape-inc n (negsuc (suc k)) (some lp) (some rp) e h = h

Shape-open :
    (ws : List Str) (l : ℤ) (rp : Option (List Str))
    → is_zero l ≡ true
    → Shape (suc (length ws)) l none rp
    → Shape (length ws) (inc l) (some ws) rp
unfolding Shape NotAbove Above
Shape-open ws (pos zero) none e h = (tt, omega arith)
Shape-open ws (pos zero) (some rp) e h = absurd h
Shape-open ws (pos (suc k)) rp e h = cc e
Shape-open ws (negsuc k) rp e h = cc e

Shape-dec :
    (n : ℕ) (l : ℤ) (lp rp : Option (List Str))
    → is_zero (dec l) ≡ false
    → Shape n l lp rp
    → Shape n (dec l) lp rp
unfolding Shape NotAbove Above
Shape-dec n (pos zero) none none e h = tt
Shape-dec n (pos zero) none (some rp) e h = h
Shape-dec n (pos zero) (some lp) none e h = absurd (h.0)
Shape-dec n (pos zero) (some lp) (some rp) e h = h
Shape-dec n (pos (suc zero)) lp rp e h = cc e
Shape-dec n (pos (suc (suc k))) none none e h = absurd h
Shape-dec n (pos (suc (suc k))) none (some rp) e h = h
Shape-dec n (pos (suc (suc k))) (some lp) none e h = h
Shape-dec n (pos (suc (suc k))) (some lp) (some rp) e h = absurd (h.0)
Shape-dec n (negsuc k) none none e h = tt
Shape-dec n (negsuc k) none (some rp) e h = h
Shape-dec n (negsuc k) (some lp) none e h = absurd (h.0)
Shape-dec n (negsuc k) (some lp) (some rp) e h = h

Shape-close :
    (w : Str) (ws : List Str) (l : ℤ) (lp rp : Option (List Str))
    → is_zero (dec l) ≡ true
    → Shape (suc (length ws)) l lp rp
    → Shape (length ws) (dec l) lp (some (w ∷ ws))
unfolding Shape NotAbove Above
Shape-close w ws (pos zero) lp rp e h = cc e
Shape-close w ws (pos (suc zero)) none none e h = absurd h
Shape-close w ws (pos (suc zero)) none (some rp) e h = h
Shape-close w ws (pos (suc zero)) (some lp) none e h = (tt, h.1)
Shape-close w ws (pos (suc zero)) (some lp) (some rp) e h = absurd (h.0)
Shape-close w ws (pos (suc (suc k))) lp rp e h = cc e
Shape-close w ws (negsuc k) lp rp e h = cc e

seterror-ne-none : (id : SynError) (e : SetErr) → seterror id e ≢ none
unfolding seterror
seterror-ne-none id none h = cc h
seterror-ne-none id (some x) h = cc h

-- What a step over the word `w` leaves where it sets no error.
record Stepped (w : Str) (n : ℕ) (s t : Loop) : Type 0 where
  earlier : s.err ≡ none
  at_depth : t.l ≡ depth w s.l
  shape : Shape (suc n) s.l s.lp s.rp → Shape n t.l t.lp t.rp

abbrev Step : Str → ℕ → Loop → Loop → Type 0
Step w n s t = t.err ≡ none → Stepped w n s t

if_Step :
    (w : Str) (n : ℕ) (s : Loop) (b : Bool) (x y : Loop)
    → (b ≡ true → Step w n s x)
    → (b ≡ false → Step w n s y)
    → Step w n s (if b then x else y)
if_Step w n s true x y p q = p refl
if_Step w n s false x y p q = q refl

set_err-Step : (w : Str) (n : ℕ) (s t : Loop) (id : SynError) → Step w n s (set_err id t)
set_err-Step w n s t id e = absurd (seterror-ne-none id t.err e)

-- A word that changes no depth and no pointer.
same-Step :
    (w : Str) (n : ℕ) (s t : Loop)
    → t.err ≡ s.err
    → t.l ≡ s.l
    → t.lp ≡ s.lp
    → t.rp ≡ s.rp
    → depth w s.l ≡ s.l
    → Step w n s t
same-Step w n s t a b c d f e = record {
  earlier = sym a ∙ e;
  at_depth = b ∙ sym f;
  shape = λ h. rw (b, c, d) (Shape-weaken n s.l s.lp s.rp h);
}

relpar-depth : (w : Str) (l : ℤ) → relpar w ≡ false → depth w l ≡ l
relpar-depth w l h = ground arith

open-Step :
    (w : Str) (ws : List Str) (s : Loop)
    → (char0 w == b'(') ≡ true
    → Step w (length ws) s (open_paren false ws s)
open-Step w ws s c = go s.lp refl
  where
    at : inc s.l ≡ depth w s.l
    at = rw c refl

    go :
        (o : Option (List Str))
        → s.lp ≡ o
        → Step w (length ws) s (
            let t : Loop = elim o [ none ↦ s | some _ ↦ set_err bad_plp s ] in
            if is_zero s.l
            then record t { lp = some ws; l = inc s.l }
            else record s { l = inc s.l })
    go none p =
        if_Step w (length ws) s (is_zero s.l) _ _
          (λ z e. record {
            earlier = e;
            at_depth = at;
            shape =
                λ h. Shape-open ws s.l s.rp z (subst (λ o. Shape (suc (length ws)) s.l o s.rp) p h);
          })
          (λ z e. record {
            earlier = e;
            at_depth = at;
            shape = λ h.
                Shape-inc (length ws) s.l s.lp s.rp z (Shape-weaken (length ws) s.l s.lp s.rp h);
          })
    go (some v) p =
        if_Step w (length ws) s (is_zero s.l) _ _ (λ z e. absurd (seterror-ne-none bad_plp s.err e))
          (λ z e. record {
            earlier = e;
            at_depth = at;
            shape = λ h.
                Shape-inc (length ws) s.l s.lp s.rp z (Shape-weaken (length ws) s.l s.lp s.rp h);
          })

close-Step :
    (w : Str) (ws : List Str) (s : Loop)
    → (char0 w == b'(') ≡ false
    → (char0 w == b')') ≡ true
    → Step w (length ws) s (close_paren w ws s)
close-Step w ws s c d =
    if_Step w (length ws) s (is_zero (dec s.l)) _ _
      (λ z e. record {
        earlier = e;
        at_depth = rw (c, d) refl;
        shape = λ h. Shape-close w ws s.l s.lp s.rp z h;
      })
      (λ z e. record {
        earlier = e;
        at_depth = rw (c, d) refl;
        shape =
            λ h. Shape-dec (length ws) s.l s.lp s.rp z (Shape-weaken (length ws) s.l s.lp s.rp h);
      })

plain-Step :
    (w : Str) (n : ℕ) (s : Loop)
    → (char0 w == b'(') ≡ false
    → (char0 w == b')') ≡ false
    → Step w n s s
plain-Step w n s c d = same-Step w n s s refl refl refl refl (rw (c, d) refl)

save-Step : (w v : Str) (n : ℕ) (s : Loop) → depth w s.l ≡ s.l → Step w n s (save v s)
save-Step w v n s d = same-Step w n s (save v s) refl refl refl refl d

word-Step : (w : Str) (ws : List Str) (s : Loop) → Step w (length ws) s (word_between false w ws s)
unfolding word_between
word-Step w ws s =
    let n = length ws in
    if_Step w n s (char0 w == b'(') _ _ (open-Step w ws s) λ c.
      if_Step w n s (char0 w == b')') _ _ (close-Step w ws s c) λ d.
        let f : depth w s.l ≡ s.l = rw (c, d) refl in
        if_Step w n s (char0 w == b'>') _ _
          (λ _.
            if_Step w n s (not (is_zero s.l)) _ _ (λ _. plain-Step w n s c d)
              λ _.
                if_Step w n s (char1 w == b'>') _ _ (λ _. same-Step w n s _ refl refl refl refl f)
                  (λ _. same-Step w n s _ refl refl refl refl f))
          λ _.
            if_Step w n s (char0 w == b'<') _ _
              (λ _.
                if_Step w n s (not (is_zero s.l)) _ _ (λ _. plain-Step w n s c d)
                  λ _.
                    if_Step w n s (char1 w == b'<') _ _
                      (λ _. same-Step w n s _ refl refl refl refl f)
                      (λ _. same-Step w n s _ refl refl refl refl f))
              λ _.
                if_Step w n s (not (is_zero s.l) && true) _ _ (λ _. plain-Step w n s c d)
                  λ _. save-Step w w n s f

out_file-Step : (flags : Context) (w : Str) (n : ℕ) (s : Loop) → Step w n s (out_file flags w s)
out_file-Step flags w n s =
    if_Step w n s (relpar w) _ _ (λ _. set_err-Step w n s _ mis_red)
      λ r.
        if_Step w n s ((flags.p_out && not flags.p_diag) || is_some s.redirects.rit) _ _
          (λ _. set_err-Step w n s _ out_red)
          λ _. same-Step w n s _ refl refl refl refl (relpar-depth w s.l r)

in_file-Step : (flags : Context) (w : Str) (n : ℕ) (s : Loop) → Step w n s (in_file flags w s)
in_file-Step flags w n s =
    if_Step w n s (relpar w) _ _ (λ _. set_err-Step w n s _ mis_red)
      λ r.
        if_Step w n s (flags.here && s.redirects.flags.read) _ _ (λ _. set_err-Step w n s _ red_par)
          λ _.
            if_Step w n s (flags.p_in || is_some s.redirects.lef) _ _
              (λ _. set_err-Step w n s _ in_red)
              λ _. same-Step w n s _ refl refl refl refl (relpar-depth w s.l r)

eq-depth : (w v : Str) (l : ℤ) → relpar v ≡ false → eq w v ≡ true → depth w l ≡ l
eq-depth w v l r e = relpar-depth w l (subst (λ u. relpar u ≡ false) (sym ((eq_iff w v).0 e)) r)

bang-Step : (flags : Context) (w : Str) (n : ℕ) (s : Loop) → Step w n s (bang_or_file flags w s)
bang-Step flags w n s =
    if_Step w n s (eq w (codes "!")) _ _
      (λ e. same-Step w n s _ refl refl refl refl (eq-depth w (codes "!") s.l refl e))
      λ _. out_file-Step flags w n s

both-Step :
    (flags : Context) (w : Str) (n : ℕ) (s : Loop)
    → eq w (codes "&") ≡ true
    → Step w n s (both flags s)
both-Step flags w n s e =
    if_Step w n s (flags.p_out || flags.p_diag) _ _ (λ _. set_err-Step w n s _ out_red)
      λ _. same-Step w n s _ refl refl refl refl (eq-depth w (codes "&") s.l refl e)

step_in-Step :
    (m : Mode) (flags : Context) (w : Str) (ws : List Str) (s : Loop)
    → Step w (length ws) s (step_in m false flags w ws s)
unfolding step_in
step_in-Step between flags w ws s = word-Step w ws s
step_in-Step behind_out flags w ws s =
    if_Step w (length ws) s (eq w (codes "&")) _ _ (both-Step flags w (length ws) s)
      λ _. bang-Step flags w (length ws) s
step_in-Step behind_both flags w ws s = bang-Step flags w (length ws) s
step_in-Step behind_bang flags w ws s = out_file-Step flags w (length ws) s
step_in-Step behind_in flags w ws s = in_file-Step flags w (length ws) s

-- Where the second loop of `syn3` sets no error, the words have the depth that it counts.
pub record Looped (ws : List Str) (s t : Loop) : Type 0 where
  pub started : s.err ≡ none
  pub at_level : t.l ≡ level s.l ws
  pub ended : Shape (length ws) s.l s.lp s.rp → Shape 0 t.l t.lp t.rp

at_end-Looped : (m : Mode) (s : Loop) → (at_end m s).err ≡ none → Looped [] s (at_end m s)
unfolding at_end level
at_end-Looped between s e = record { started = e; at_level = refl; ended = λ h. h }
at_end-Looped _ s e = absurd (seterror-ne-none mis_red s.err e)

pub save_words-Looped :
    (flags : Context) (ws : List Str) (s : Loop)
    → (save_words false flags ws s).err ≡ none
    → Looped ws s (save_words false flags ws s)
unfolding save_words level
save_words-Looped flags [] s e = at_end-Looped s.mode s e
save_words-Looped flags (w ∷ ws) s e =
    let t = step_in s.mode false flags w ws s in
    let r = save_words-Looped flags ws t e in
    let q = step_in-Step s.mode flags w ws s r.started in
    record {
      started = q.earlier;
      at_level = r.at_level ∙ rw (q.at_depth) refl;
      ended = λ h. r.ended (q.shape h);
    }

pub counted :
    (specp : Bool) (flags : Context) (ws : List Str) (s : Loop)
    → specp ≡ false
    → (save_words specp flags ws s).err ≡ none
    → Looped ws s (save_words specp flags ws s)
counted true flags ws s b e = cc b
counted false flags ws s b e = save_words-Looped flags ws s e

pub seterror-none :
    (b : Bool) (id : SynError) (e : SetErr) → (if b then e else seterror id e) ≡ none → e ≡ none
seterror-none true id e h = h
seterror-none false id e h = absurd (seterror-ne-none id e h)

-- Behind words of depth 0, the group has its end.
pub group_end :
    (l : ℤ) (lp : List Str) (rp : Option (List Str))
    → l ≡ pos 0
    → Shape 0 l (some lp) rp
    → between_pointers lp rp ≢ none
unfolding Shape Above
group_end l lp none z h e = absurd (subst Above z (h.0))
group_end l lp (some rp) z h e = ground (arith, e, h.1)

pub start-Shape : (n : ℕ) → Shape n (pos 0) none none
unfolding Shape NotAbove
start-Shape n = tt
