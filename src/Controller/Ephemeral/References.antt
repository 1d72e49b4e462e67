-- ===== src/Controller/Ephemeral/References.antt =====
-- internal/controller/chaosexperiment_controller.go: the references to pods that `trackAffectedPod`
-- writes and `cleanupEphemeralContainers` reads.
use Prim.Native.Char.{code}
use Prim.Native.String
use text.Mathlib.TextLemmas.{append_assoc, nil-append, cons-append}
use k8s_chaos.Prelude.{ℕ, ◌≡◌, refl, sym, ap, ◌∙◌, String, false, some, eqb}
use k8s_chaos.Windows.Calendar.{cut_colon}
use k8s_chaos.Controller.Errors.{cut_slash}
use k8s_chaos.Controller.Ephemeral.{pod_ref, parse_pod_ref}

-- No character of the text has the code.
abbrev pub Lacks : ℕ → String → Type 0
Lacks b String.[] = Unit
Lacks b (String.◌∷◌ c s) = (eqb (code c) b ≡ false) × Lacks b s

colon_then : (t : String) → String.◌++◌ ":" t ≡ String.◌∷◌ ":" t
colon_then t = cons-append ":" "" t ∙ ap (λ u. String.◌∷◌ ":" u) (nil-append t)

slash_then : (t : String) → String.◌++◌ "/" t ≡ String.◌∷◌ "/" t
slash_then t = cons-append "/" "" t ∙ ap (λ u. String.◌∷◌ "/" u) (nil-append t)

cut_colon-append :
    (s t : String) → Lacks b':' s → cut_colon (String.◌++◌ s (String.◌++◌ ":" t)) ≡ some (s, t)
unfolding cut_colon
cut_colon-append String.[] t h = ap cut_colon (nil-append (String.◌++◌ ":" t) ∙ colon_then t)
cut_colon-append (String.◌∷◌ c s) t (h, hs) =
    ap cut_colon (cons-append c s (String.◌++◌ ":" t)) ∙ rw (h, cut_colon-append s t hs) refl

cut_slash-append :
    (s t : String) → Lacks b'/' s → cut_slash (String.◌++◌ s (String.◌++◌ "/" t)) ≡ some (s, t)
unfolding cut_slash
cut_slash-append String.[] t h = ap cut_slash (nil-append (String.◌++◌ "/" t) ∙ slash_then t)
cut_slash-append (String.◌∷◌ c s) t (h, hs) =
    ap cut_slash (cons-append c s (String.◌++◌ "/" t)) ∙ rw (h, cut_slash-append s t hs) refl

Lacks-append : (b : ℕ) (s t : String) → Lacks b s → Lacks b t → Lacks b (String.◌++◌ s t)
Lacks-append b String.[] t h g = rw (nil-append t) g
Lacks-append b (String.◌∷◌ c s) t (h, hs) g = rw (cons-append c s t) (h, Lacks-append b s t hs g)

-- A reference is read back as its parts, where the namespace has no slash and no colon, and the name of
-- the pod no colon.
pub parse_pod_ref-pod_ref :
    (namespace pod container : String)
    → Lacks b'/' namespace
    → Lacks b':' namespace
    → Lacks b':' pod
    → parse_pod_ref (pod_ref namespace pod container) ≡ some (namespace, pod, container)
unfolding parse_pod_ref pod_ref
parse_pod_ref-pod_ref namespace pod container slash colon colon' =
    let key = String.◌++◌ namespace (String.◌++◌ "/" pod) in
    let tail = String.◌++◌ ":" container in
    let e : String.◌++◌ namespace (String.◌++◌ "/" (String.◌++◌ pod tail)) ≡ String.◌++◌ key tail =
      ap (λ t. String.◌++◌ namespace t) (sym (append_assoc "/" pod tail))
      ∙ sym (append_assoc namespace (String.◌++◌ "/" pod) tail) in
    let k =
      Lacks-append b':' namespace (String.◌++◌ "/" pod) colon
        (rw (slash_then pod) (refl, colon')) in
    rw (e, parse_pod_ref, cut_colon-append key container k, cut_slash-append namespace pod slash)
      refl
