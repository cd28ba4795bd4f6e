-- ===== src/Keys/Safety.antt =====
-- src/checkpoint/object-key.ts and src/evidence/object-key.ts: the characters of the keys.
use replays_fetcher.Base.{
  ℕ, ◌≡◌, refl, Bool, true, false, ◌&&◌, [], ◌∷◌, ◌++◌, map, Text, codes, all_of, is_empty,
  if◌then◌else◌, ok, err, arith, Bool-cases, inl, inr,
}
use mathlib.Core.List.{reverse, reverse_aux}
use replays_fetcher.Keys.Defs.{
  is_slug_char, is_key_char, replace_unsafe_runs, drop_dashes, trim_dashes, to_slug, SourceUrl,
  to_source_slug, slug_key, to_checkpoint_object_key, to_run_slug, to_evidence_object_key, to_lower,
  empty_slug,
}

all_of-append : (p : ℕ → Bool) (a b : Text) → all_of p (a ++ b) ≡ (all_of p a && all_of p b)
all_of-append p [] b = refl
all_of-append p (c ∷ cs) b = ground (arith, all_of-append p cs b)

all_of-reverse_aux :
    (p : ℕ → Bool) (a b : Text)
    → all_of p a ≡ true
    → all_of p b ≡ true
    → all_of p (reverse_aux a b) ≡ true
all_of-reverse_aux p [] b h k = k
all_of-reverse_aux p (c ∷ cs) b h k = all_of-reverse_aux p cs (c ∷ b) (ground arith) (ground arith)

all_of-reverse : (p : ℕ → Bool) (t : Text) → all_of p t ≡ true → all_of p (reverse t) ≡ true
all_of-reverse p t h = all_of-reverse_aux p t [] h refl

dash-is_slug_char : is_slug_char b'-' ≡ true
unfolding is_slug_char
dash-is_slug_char = refl

all_of-replace :
    (in_run : Bool) (t : Text) → all_of is_slug_char (replace_unsafe_runs in_run t) ≡ true
unfolding replace_unsafe_runs
all_of-replace in_run [] = refl
all_of-replace in_run (c ∷ cs) =
    ground (arith, dash-is_slug_char, all_of-replace (if is_slug_char c then false else true) cs)

all_of-drop_dashes : (p : ℕ → Bool) (t : Text) → all_of p t ≡ true → all_of p (drop_dashes t) ≡ true
unfolding drop_dashes
all_of-drop_dashes p [] h = refl
all_of-drop_dashes p (c ∷ cs) h = ground (arith, all_of-drop_dashes p cs)

to_slug_safe : (t : Text) → all_of is_slug_char (to_slug t) ≡ true
unfolding to_slug trim_dashes
to_slug_safe t =
    let safe = is_slug_char in
    let replaced = replace_unsafe_runs false (map to_lower t) in
    let front = drop_dashes replaced in
    let back = drop_dashes (reverse front) in
    all_of-reverse safe back (
      all_of-drop_dashes safe (reverse front) (
        all_of-reverse safe front
          (all_of-drop_dashes safe replaced (all_of-replace false (map to_lower t)))))

all_of-is_key_char : (t : Text) → all_of is_slug_char t ≡ true → all_of is_key_char t ≡ true
all_of-is_key_char [] h = refl
all_of-is_key_char (c ∷ cs) h = ground (arith, all_of-is_key_char cs)

latest_safe : all_of is_key_char (codes "latest.json") ≡ true
unfolding is_slug_char
latest_safe = refl

evidence_safe : all_of is_key_char (codes "evidence.json") ≡ true
unfolding is_slug_char
evidence_safe = refl

slash_safe : all_of is_key_char (codes "/") ≡ true
unfolding is_slug_char
slash_safe = refl

-- The two builders, on a slug of safe characters.
slug_key_lem :
    (prefix slug name : Text)
    → is_empty prefix ≡ false
    → all_of is_key_char prefix ≡ true
    → all_of is_slug_char slug ≡ true
    → all_of is_key_char name ≡ true
    → slug_key prefix slug name ≡ (
        if is_empty slug
        then err empty_slug
        else ok (prefix ++ (codes "/" ++ (slug ++ (codes "/" ++ name)))))
unfolding slug_key
slug_key_lem prefix slug name np ps ss ms = elim (Bool-cases (is_empty slug)) [
  | inl none' ↦ rw (np, none')
  | inr some' ↦ rw (np, some', safe)
]
  where
    safe : all_of is_key_char (prefix ++ (codes "/" ++ (slug ++ (codes "/" ++ name)))) ≡ true
    safe = simp (all_of-append, ps, slash_safe, all_of-is_key_char slug ss, ms)

-- With a safe prefix, the builder of the checkpoint's key fails only on a source whose host and path
-- give an empty slug; otherwise the key is the prefix, the slug and the name, joined by slashes.
checkpoint_key_total :
    (prefix : Text) (url : SourceUrl)
    → is_empty prefix ≡ false
    → all_of is_key_char prefix ≡ true
    → let slug = to_source_slug url in
      let key = prefix ++ (codes "/" ++ (slug ++ (codes "/" ++ codes "latest.json"))) in
      to_checkpoint_object_key prefix url ≡ (if is_empty slug then err empty_slug else ok key)
unfolding to_checkpoint_object_key
checkpoint_key_total prefix url np ps =
    slug_key_lem prefix (to_source_slug url) (codes "latest.json") np ps
      (unfold to_source_slug in to_slug_safe (url.host ++ url.pathname)) latest_safe

-- With a safe prefix, the builder of the evidence's key fails only on an identifier with an empty slug;
-- otherwise the key is the prefix, the slug and the name, joined by slashes.
evidence_key_total :
    (prefix run_id : Text)
    → is_empty prefix ≡ false
    → all_of is_key_char prefix ≡ true
    → let slug = to_run_slug run_id in
      let key = prefix ++ (codes "/" ++ (slug ++ (codes "/" ++ codes "evidence.json"))) in
      to_evidence_object_key prefix run_id ≡ (if is_empty slug then err empty_slug else ok key)
unfolding to_evidence_object_key
evidence_key_total prefix run_id np ps =
    slug_key_lem prefix (to_run_slug run_id) (codes "evidence.json") np ps
      (unfold to_run_slug in to_slug_safe run_id) evidence_safe

-- Where the prefix is not empty and has safe characters only, both builders fail only on an empty slug,
-- and otherwise the key is the prefix, the slug and the name of the file, joined by slashes. Every
-- character of the slugs is a lower-case letter, a digit, a dot, an underscore or a dash: no slash and
-- no colon of a URL or of a run's identifier reaches a key.
pub object_keys_safe :
    (prefix run_id : Text) (url : SourceUrl)
    → is_empty prefix ≡ false
    → all_of is_key_char prefix ≡ true
    → let source = to_source_slug url in
      let run = to_run_slug run_id in
      let key : Text → Text → Text =
        λ slug name. prefix ++ (codes "/" ++ (slug ++ (codes "/" ++ name))) in
      (to_checkpoint_object_key prefix url
        ≡ (if is_empty source then err empty_slug else ok (key source (codes "latest.json"))))
      × (to_evidence_object_key prefix run_id
          ≡ (if is_empty run then err empty_slug else ok (key run (codes "evidence.json"))))
      × (all_of is_slug_char source ≡ true)
      × (all_of is_slug_char run ≡ true)
unfolding to_source_slug to_run_slug
object_keys_safe prefix run_id url np ps = (
  checkpoint_key_total prefix url np ps,
  evidence_key_total prefix run_id np ps,
  to_slug_safe (url.host ++ url.pathname),
  to_slug_safe run_id,
)
