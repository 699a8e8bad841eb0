-- ===== src/Audit.antt =====
-- `AuditLedger` of sara_unified/evidence/audit.py: a file of JSON lines that are chained by their
-- hashes. The file is its text, as code points, in which `read_text` has made every line end a
-- newline; `splitlines` cuts it at every line boundary of Unicode. JSON is the argument `json`,
-- SHA-256 the argument `sha256`.
pub mod Lines
pub mod Chain
use sara_omega.Prelude.{
  ℕ, ◌+◌, String, Bool, true, false, not, ◌&&◌, ◌||◌, List, [], ◌∷◌, ◌++◌, Option, none, some, map,
  all, length, leb, ◌==◌, str_eq, if◌then◌else◌,
}
use sara_omega.Prelude.Attempt.{Attempt, returned, raised, ◌>>=◌}

-- An event without its hash. A key that a stored object lacks is `none`.
pub record Body (D : Type 0) : Type 0 where
  pub sequence : Option ℕ
  pub timestamp : Option String
  pub actor : Option String
  pub action : Option String
  pub details : Option D
  pub previous_hash : Option String

pub record Event (D : Type 0) : Type 0 where
  pub body : Body D
  pub event_hash : Option String

-- What is read of a line: nothing of a blank one, else no JSON, JSON that is no object, an object.
pub data Line (D : Type 0) : Type 0 where
  blank malformed scalar : Line D
  event : Event D → Line D

-- What `_records` keeps of a line.
pub data Entry (D : Type 0) : Type 0 where
  no_object : Entry D
  object : Event D → Entry D

abbrev pub genesis : String
genesis = "GENESIS"

-- `record.get(key) == value`
abbrev pub is_text : Option String → String → Bool
is_text none s = false
is_text (some t) s = str_eq t s

abbrev pub is_number : Option ℕ → ℕ → Bool
is_number none n = false
is_number (some m) n = m == n

-- A line boundary of `str.splitlines`, but for \r and \n at once.
unfoldable pub is_break : ℕ → Bool
is_break c = (leb 10 c && leb c 13) || (leb 28 c && leb c 30) || c == 133 || c == 8232 || c == 8233

-- A character before the first line.
abbrev pub before_lines : ℕ → List (List ℕ) → List (List ℕ)
before_lines c [] = (c ∷ []) ∷ []
before_lines c (l ∷ ls) = (c ∷ l) ∷ ls

unfoldable pub splitlines : List ℕ → List (List ℕ)
unfolding is_break
splitlines [] = []
splitlines (c ∷ cs) =
    let rest = splitlines cs in if is_break c then [] ∷ rest else before_lines c rest

-- The white space of `str.strip`
unfoldable pub is_white : ℕ → Bool
is_white c =
    (leb 9 c && leb c 13)
    || (leb 28 c && leb c 32)
    || c == 133
    || c == 160
    || c == 5760
    || (leb 8192 c && leb c 8202)
    || c == 8232
    || c == 8233
    || c == 8239
    || c == 8287
    || c == 12288

-- No surrogate: UTF-8 encodes the text.
unfoldable pub is_encodable : List ℕ → Bool
is_encodable = all (λ c. not (leb 55296 c && leb c 57343))

-- `_canonical` of an event without and with its hash, and `json.loads` of a line.
pub record Json (D : Type 0) : Type 0 where
  pub body_text : Body D → List ℕ
  pub event_text : Event D → List ℕ
  pub parse : List ℕ → Line D

module _ {D : Type 0} where
  -- `if line.strip(): ... json.loads(line)`
  unfoldable pub read_line : Json D → List ℕ → Line D
  unfolding is_white
  read_line json l = if all is_white l then blank else json.parse l

  unfoldable pub load_lines : List (Line D) → Attempt (List (Entry D))
  load_lines [] = returned []
  load_lines (blank ∷ ls) = load_lines ls
  load_lines (malformed ∷ ls) = raised "JSONDecodeError"
  load_lines (scalar ∷ ls) = do rest ← load_lines ls; returned (no_object ∷ rest)
  load_lines (event e ∷ ls) = do rest ← load_lines ls; returned (object e ∷ rest)

  unfoldable pub records : Json D → List ℕ → Attempt (List (Entry D))
  unfolding splitlines read_line load_lines
  records json text = load_lines (map (read_line json) (splitlines text))

  -- `records[-1]["event_hash"] if records else "GENESIS"`
  unfoldable pub last_hash : String → List (Entry D) → Attempt String
  last_hash h [] = returned h
  last_hash h (no_object ∷ []) = raised "TypeError"
  last_hash h (object e ∷ []) = elim e.event_hash [ none ↦ raised "KeyError" | some s ↦ returned s ]
  last_hash h (e ∷ f ∷ es) = last_hash h (f ∷ es)

  abbrev pub new_body : ℕ → String → String → String → D → String → Body D
  new_body n now actor action details previous = record {
    sequence = some n;
    timestamp = some now;
    actor = some actor;
    action = some action;
    details = some details;
    previous_hash = some previous;
  }

  module _ (json : Json D) (sha256 : List ℕ → String) where
    abbrev pub digest : Body D → String
    digest body = sha256 (json.body_text body)

    -- `hashlib.sha256(self._canonical(body).encode()).hexdigest()`
    unfoldable pub hash_of : Body D → Attempt String
    unfolding is_encodable
    hash_of body =
        if is_encodable (json.body_text body)
        then returned (digest body)
        else raised "UnicodeEncodeError"

    -- `append` returns the file's new text and the event. What encodes without the hash, which is
    -- hexadecimal, encodes with it.
    unfoldable pub append : String → String → String → D → List ℕ → Attempt (List ℕ × Event D)
    unfolding records last_hash hash_of
    append now actor action details text = do
      known ← records json text
      previous ← last_hash genesis known
      let body = new_body (length known + 1) now actor action details previous
      hash ← hash_of body
      let written : Event D = record { body = body; event_hash = some hash }
      returned (text ++ (json.event_text written ++ 10 ∷ []), written)

    -- The loop of `verify`, from a record's number and the hash that it has to name.
    unfoldable pub verify_from : ℕ → String → List (Entry D) → Attempt Bool
    unfolding is_encodable
    verify_from n previous [] = returned true
    verify_from n previous (no_object ∷ es) = raised "AttributeError"
    verify_from n previous (object e ∷ es) =
        let rest = verify_from (n + 1) (digest e.body) es in
        if not (is_encodable (json.body_text e.body))
        then raised "UnicodeEncodeError"
        else if not (is_number e.body.sequence n)
            || not (is_text e.body.previous_hash previous)
            || not (is_text e.event_hash (digest e.body))
        then returned false
        else rest

    abbrev pub verify_records : Attempt (List (Entry D)) → Attempt Bool
    verify_records (returned es) = verify_from 1 genesis es
    verify_records (raised e) = returned false

    unfoldable pub verify : List ℕ → Attempt Bool
    unfolding records verify_from
    verify text = verify_records (records json text)
