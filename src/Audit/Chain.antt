-- ===== src/Audit/Chain.antt =====
-- The chain of sara_unified/evidence/audit.py: what `append` makes of a verified ledger, and that the
-- last hash fixes all that is in it.
use mathlib.Core.List.{append_assoc}
use sara_omega.Prelude.{
  ℕ, ◌+◌, String, ◌≡◌, ◌↔◌, ◌||◌, refl, ap, Bool, true, false, not, List, map, all, ◌∙◌, [], ◌∷◌,
  ◌++◌, Option, none, some, arith, length, eq_iff, if◌then◌else◌,
}
use sara_omega.Prelude.Attempt.{Attempt, returned, raised, ◌>>=◌}
use sara_omega.Audit.{
  Body, Event, malformed, event, Entry, no_object, object, genesis, Json, is_break, is_white,
  is_encodable, splitlines, read_line, load_lines, records, last_hash, hash_of, digest, append,
  verify_from, verify, verify_records, new_body, is_text, is_number,
}
use sara_omega.Audit.Lines.{
  IsTerminated, NoBreak, records-append, records-line, append-IsTerminated,
}

is_text_iff : (o : Option String) (s : String) → (is_text o s ≡ true) ↔ (o ≡ some s)
is_text_iff none s = (λ h. cc, λ h. cc)
is_text_iff (some t) s = (λ h. ap some ((eq_iff t s).0 h), λ h. (eq_iff t s).1 (ground arith))

is_number_iff : (o : Option ℕ) (n : ℕ) → (is_number o n ≡ true) ↔ (o ≡ some n)
is_number_iff none n = (λ h. cc, λ h. cc)
is_number_iff (some m) n = (λ h. ground arith, λ h. ground arith)

guards_iff :
    (a b c d : Bool) (r : Attempt Bool)
    → ((if not d
          then raised "UnicodeEncodeError"
          else if not a || not b || not c
          then returned false
          else r)
        ≡ returned true)
      ↔ ((a ≡ true) × (b ≡ true) × (c ≡ true) × (d ≡ true) × (r ≡ returned true))
guards_iff a b c d r = (λ h. ground arith, λ h. ground arith)

module _ {D : Type 0} (json : Json D) (sha256 : List ℕ → String) where
  abbrev hash : Body D → String
  hash = digest json sha256

  -- The entries are events, numbered from `n`, each with its own hash and that of the one before.
  abbrev Chained : ℕ → String → List (Entry D) → Type 0
  Chained n previous [] = Unit
  Chained n previous (no_object ∷ es) = ⊥
  Chained n previous (object e ∷ es) =
      (e.body.sequence ≡ some n)
      × (e.body.previous_hash ≡ some previous)
      × (e.event_hash ≡ some (hash e.body))
      × (is_encodable (json.body_text e.body) ≡ true)
      × Chained (n + 1) (hash e.body) es

  verify_from_iff :
      (es : List (Entry D)) (n : ℕ) (previous : String)
      → (verify_from json sha256 n previous es ≡ returned true) ↔ Chained n previous es
  unfolding verify_from
  verify_from_iff [] n previous = (λ h. tt, λ h. refl)
  verify_from_iff (no_object ∷ es) n previous = (λ h. cc, λ h. absurd h)
  verify_from_iff (object e ∷ es) n previous =
      let number = is_number_iff e.body.sequence n in
      let named = is_text_iff e.body.previous_hash previous in
      let hashed = is_text_iff e.event_hash (hash e.body) in
      let later = verify_from_iff es (n + 1) (hash e.body) in
      (
        λ h.
            let g = (guards_iff _ _ _ _ _).0 h in
            (number.0 g.0, named.0 g.1, hashed.0 g.2, g.3, later.0 g.4),
        λ h. (guards_iff _ _ _ _ _).1 (number.1 h.0, named.1 h.1, hashed.1 h.2, h.3, later.1 h.4),
      )

  -- The hash at the end of a chain.
  abbrev head_from : String → List (Entry D) → String
  head_from previous [] = previous
  head_from previous (no_object ∷ es) = head_from previous es
  head_from previous (object e ∷ es) = head_from (hash e.body) es

  last_hash-cons :
      (es : List (Entry D)) (e : Entry D) (n : ℕ) (previous other : String)
      → Chained n previous (e ∷ es)
      → last_hash other (e ∷ es) ≡ returned (head_from previous (e ∷ es))
  unfolding last_hash
  last_hash-cons es no_object n previous other h = absurd h
  last_hash-cons [] (object e) n previous other h = rw h.2
  last_hash-cons (f ∷ es) (object e) n previous other h =
      last_hash-cons es f (n + 1) (hash e.body) other h.4

  last_hash-head_from :
      (es : List (Entry D)) (n : ℕ) (previous : String)
      → Chained n previous es
      → last_hash previous es ≡ returned (head_from previous es)
  unfolding last_hash
  last_hash-head_from [] n previous h = refl
  last_hash-head_from (e ∷ es) n previous h = last_hash-cons es e n previous previous h

  Chained-append :
      (es : List (Entry D)) (n : ℕ) (previous : String) (e : Event D)
      → Chained n previous es
      → e.body.sequence ≡ some (n + length es)
      → e.body.previous_hash ≡ some (head_from previous es)
      → e.event_hash ≡ some (hash e.body)
      → is_encodable (json.body_text e.body) ≡ true
      → Chained n previous (es ++ object e ∷ [])
  Chained-append [] n previous e h s p d k = (rw s (ap some (omega arith)), p, d, k, tt)
  Chained-append (no_object ∷ es) n previous e h s p d k = absurd h
  Chained-append (object f ∷ es) n previous e h s p d k = (
    h.0,
    h.1,
    h.2,
    h.3,
    Chained-append es (n + 1) (hash f.body) e h.4 (rw s (ap some (omega arith))) p d k,
  )

  -- A ledger is verified exactly when its lines are JSON and its entries are a chain.
  verify_iff :
      (file : List ℕ)
      → (verify json sha256 file ≡ returned true)
        ↔ ((es : List (Entry D)) × (records json file ≡ returned es) × Chained 1 genesis es)
  unfolding verify
  verify_iff file = go (records json file)
    where
      go :
          (r : Attempt (List (Entry D)))
          → (verify_records json sha256 r ≡ returned true)
            ↔ ((es : List (Entry D)) × (r ≡ returned es) × Chained 1 genesis es)
      go (returned es) = (
        λ h. (es, refl, (verify_from_iff es 1 genesis).0 h),
        λ (es', e, c). let q : es ≡ es' = cc in (verify_from_iff es 1 genesis).1 (rw q c),
      )
      go (raised x) = (λ h. cc, λ (es, e, c). cc)

  verified-Chained :
      (file : List ℕ) (es : List (Entry D))
      → verify json sha256 file ≡ returned true
      → records json file ≡ returned es
      → Chained 1 genesis es
  unfolding verify
  verified-Chained file es v k = (verify_from_iff es 1 genesis).0 (rw k at v)

  -- The event that `append` writes after some entries.
  abbrev pub event_at : String → String → String → D → List (Entry D) → Event D
  event_at now actor action details es =
      let body = new_body (length es + 1) now actor action details (head_from genesis es) in
      record { body = body; event_hash = some (hash body) }

  -- An event whose text is one line that is not blank, and that is read back from it.
  pub record IsPlain (e : Event D) : Type 0 where
    pub one_line : NoBreak (json.event_text e)
    pub not_blank : all is_white (json.event_text e) ≡ false
    pub read_back : json.parse (json.event_text e) ≡ event e

  -- The text of a ledger with an event after it.
  abbrev pub extended : List ℕ → Event D → List ℕ
  extended text e = text ++ (json.event_text e ++ 10 ∷ [])

  pub append-returned :
      (now actor action : String) (details : D) (text : List ℕ) (es : List (Entry D))
      → verify json sha256 text ≡ returned true
      → records json text ≡ returned es
      → is_encodable (json.body_text (event_at now actor action details es).body) ≡ true
      → (let e = event_at now actor action details es in
          append json sha256 now actor action details text ≡ returned (extended text e, e))
  unfolding append hash_of
  append-returned now actor action details text es h known k =
      let chain = verified-Chained text es h known in
      rw (known, last_hash-head_from es 1 genesis chain, k)

  pub append-raised :
      (now actor action : String) (details : D) (text : List ℕ) (es : List (Entry D))
      → verify json sha256 text ≡ returned true
      → records json text ≡ returned es
      → is_encodable (json.body_text (event_at now actor action details es).body) ≡ false
      → append json sha256 now actor action details text ≡ raised "UnicodeEncodeError"
  unfolding append hash_of
  append-raised now actor action details text es h known k =
      let chain = verified-Chained text es h known in
      rw (known, last_hash-head_from es 1 genesis chain, k)

  -- A verified ledger is JSON.
  pub verify-entries :
      (text : List ℕ)
      → verify json sha256 text ≡ returned true
      → (es : List (Entry D)) × (records json text ≡ returned es)
  verify-entries text h = let (es, known, chain) = (verify_iff text).0 h in (es, known)

  records-plain :
      (e : Event D)
      → IsPlain e
      → records json (json.event_text e ++ 10 ∷ []) ≡ returned (object e ∷ [])
  unfolding read_line load_lines splitlines
  records-plain e plain =
      records-line json (json.event_text e) 10 [] plain.one_line refl
      ∙ ap (λ l. load_lines (l ∷ [])) line
    where
      line : read_line json (json.event_text e) ≡ event e
      line = rw (plain.not_blank, plain.read_back) refl

  records-extended :
      (text : List ℕ) (es : List (Entry D)) (e : Event D)
      → IsTerminated text
      → records json text ≡ returned es
      → records json (extended text e)
        ≡ (records json (json.event_text e ++ 10 ∷ []) >>= λ fs. returned (es ++ fs))
  records-extended text es e t known =
      records-append json text (json.event_text e ++ 10 ∷ []) t
      ∙ ap
          (λ m.
            m >>= λ es. records json (json.event_text e ++ 10 ∷ []) >>= λ fs. returned (es ++ fs))
          known

  -- On a verified ledger whose text is empty or ends a line: an event that can be encoded, and whose
  -- JSON is one line that is not blank and is read back as the event, is appended, after which the
  -- ledger is verified and ends a line.
  pub append-verify :
      (now actor action : String) (details : D) (text : List ℕ) (es : List (Entry D))
      → IsTerminated text
      → verify json sha256 text ≡ returned true
      → records json text ≡ returned es
      → is_encodable (json.body_text (event_at now actor action details es).body) ≡ true
      → IsPlain (event_at now actor action details es)
      → (let e = event_at now actor action details es in
          (append json sha256 now actor action details text ≡ returned (extended text e, e))
          × (verify json sha256 (extended text e) ≡ returned true)
          × IsTerminated (extended text e))
  unfolding is_break
  append-verify now actor action details text es t h known k plain =
      let e = event_at now actor action details es in
      let chain = verified-Chained text es h known in
      (
        append-returned now actor action details text es h known k,
        (verify_iff (extended text e)).1 (
          es ++ object e ∷ [],
          records-extended text es e t known
              ∙ ap (λ m. m >>= λ fs. returned (es ++ fs)) (records-plain e plain),
          Chained-append es 1 genesis e chain (ap some (omega arith)) refl refl k,
        ),
        append-IsTerminated text (json.event_text e) 10 refl,
      )

  records-broken :
      (e : Event D) (a b : List ℕ) (c : ℕ)
      → json.event_text e ≡ a ++ c ∷ b
      → NoBreak a
      → is_break c ≡ true
      → read_line json a ≡ malformed
      → records json (json.event_text e ++ 10 ∷ []) ≡ raised "JSONDecodeError"
  unfolding load_lines
  records-broken e a b c parts h q bad =
      ap (λ l. records json (l ++ 10 ∷ [])) parts
      ∙ ap (records json) (append_assoc a (c ∷ b) (10 ∷ []))
      ∙ records-line json a c (b ++ 10 ∷ []) h q
      ∙ ap (λ l. load_lines (l ∷ map (read_line json) (splitlines (b ++ 10 ∷ [])))) bad

  -- On a verified ledger whose text is empty or ends a line: an event that can be encoded, but whose
  -- JSON has a line boundary, such as U+2028, before which it is no JSON, is appended all the same,
  -- after which the ledger is not verified.
  pub append-broken :
      (now actor action : String) (details : D) (text : List ℕ) (es : List (Entry D)) (a b : List ℕ)
      (c : ℕ)
      → IsTerminated text
      → verify json sha256 text ≡ returned true
      → records json text ≡ returned es
      → is_encodable (json.body_text (event_at now actor action details es).body) ≡ true
      → json.event_text (event_at now actor action details es) ≡ a ++ c ∷ b
      → NoBreak a
      → is_break c ≡ true
      → read_line json a ≡ malformed
      → (let e = event_at now actor action details es in
          (append json sha256 now actor action details text ≡ returned (extended text e, e))
          × (verify json sha256 (extended text e) ≡ returned false))
  unfolding verify
  append-broken now actor action details text es a b c t h known k parts plain q bad =
      let e = event_at now actor action details es in
      (
        append-returned now actor action details text es h known k,
        ap (verify_records json sha256) (
            records-extended text es e t known
            ∙ ap (λ m. m >>= λ fs. returned (es ++ fs)) (records-broken e a b c parts plain q bad)),
      )

  -- Where no two events have one hash, chains of one length that end in one hash are equal.
  Chained-unique :
      (es es' : List (Entry D)) (n : ℕ) (previous previous' : String)
      → ((a b : Body D) → hash a ≡ hash b → a ≡ b)
      → Chained n previous es
      → Chained n previous' es'
      → length es ≡ length es'
      → head_from previous es ≡ head_from previous' es'
      → (previous ≡ previous') × (es ≡ es')
  Chained-unique [] [] n previous previous' inj h h' l e = (e, refl)
  Chained-unique [] (f ∷ es') n previous previous' inj h h' l e = absurd (omega arith)
  Chained-unique (e ∷ es) [] n previous previous' inj h h' l q = absurd (omega arith)
  Chained-unique (no_object ∷ es) (f ∷ es') n previous previous' inj h h' l e = absurd h
  Chained-unique (object e ∷ es) (no_object ∷ es') n previous previous' inj h h' l q = absurd h'
  Chained-unique (object e ∷ es) (object f ∷ es') n previous previous' inj h h' l q =
      let later =
        Chained-unique es es' (n + 1) (hash e.body) (hash f.body) inj h.4 h'.4 (omega arith) q in
      let same = inj e.body f.body later.0 in (ground arith, ground arith)

  -- Two verified ledgers with as many entries and one last hash hold the same events, where no
  -- two events have one hash.
  pub verify_unique :
      (file file' : List ℕ) (es es' : List (Entry D))
      → ((a b : Body D) → hash a ≡ hash b → a ≡ b)
      → verify json sha256 file ≡ returned true
      → verify json sha256 file' ≡ returned true
      → records json file ≡ returned es
      → records json file' ≡ returned es'
      → length es ≡ length es'
      → last_hash genesis es ≡ last_hash genesis es'
      → es ≡ es'
  verify_unique file file' es es' inj v v' k k' l same =
      let chain = verified-Chained file es v k in
      let chain' = verified-Chained file' es' v' k' in
      let head = last_hash-head_from es 1 genesis chain in
      let head' = last_hash-head_from es' 1 genesis chain' in
      (Chained-unique es es' 1 genesis genesis inj chain chain' l (ground arith)).1
