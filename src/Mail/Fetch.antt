-- ===== src/Mail/Fetch.antt =====
-- `fetch_invoices` of usecases/fetch_invoices.py. Instants are natural numbers.
pub mod Newest
use invoices_codex.Prelude.{
  ℕ, zero, suc, String, Bool, true, false, not, ◌&&◌, ◌||◌, Option, none, some, List, [], ◌∷◌, ◌==◌,
  contains, filter, leb, ltb, eqb, or_empty, if◌then◌else◌,
}
use invoices_codex.Mail.Relevance.{has_part, should_consider_message}

pub record AttachmentMeta : Type 0 where
  pub id : String
  pub name : String
  pub content_type : String
  pub size : Option ℕ

pub record MessageMeta : Type 0 where
  pub id : String
  pub subject : String
  pub sender : String
  pub received : String
  pub web_link : Option String
  pub preview : String
  pub has_attachments : Bool
  pub folder : Option String

-- What the adapter gives: the messages, and the attachments of a message up to an exception, if one comes.
pub record MailAdapter : Type 0 where
  pub messages : List MessageMeta
  pub attachments : MessageMeta → List AttachmentMeta

pub record FetchConfig : Type 0 where
  pub start_date : String
  pub end_date : String
  pub verify : Bool
  pub exclude_sent : Bool
  pub max_messages : ℕ

-- The text and date functions: `strip`, `lower`, `date.fromisoformat` at midnight in UTC, and the readings of a
-- `received` text, each of which may raise: with an offset or without one, in UTC.
pub record MailTools : Type 0 where
  pub strip : String → String
  pub lower : String → String
  pub date_fromisoformat : String → Option ℕ
  pub drop_last : String → String
  pub datetime_fromisoformat : String → Option ℕ
  pub strptime : String → String → Option ℕ

-- `text.endswith(part)`
unfoldable pub ends_with : String → String → Bool
ends_with String.[] part = part == ""
ends_with (String.◌∷◌ c s) part = let rest = ends_with s part in String.◌∷◌ c s == part || rest

-- The messages, newest first, those of one instant in their order.
unfoldable pub insert_newest : (MessageMeta → ℕ) → MessageMeta → List MessageMeta → List MessageMeta
insert_newest key m [] = m ∷ []
insert_newest key m (x ∷ xs) =
    let rest = insert_newest key m xs in if leb (key x) (key m) then m ∷ x ∷ xs else x ∷ rest

unfoldable pub newest_first : (MessageMeta → ℕ) → List MessageMeta → List MessageMeta
newest_first key [] = []
newest_first key (m ∷ ms) = insert_newest key m (newest_first key ms)

-- `matched[:n]`
unfoldable pub take_messages : ℕ → List MessageMeta → List MessageMeta
take_messages zero ms = []
take_messages (suc n) [] = []
take_messages (suc n) (m ∷ ms) = m ∷ take_messages n ms

module _ (tools : MailTools) where
  abbrev parsed_candidate : String → Option ℕ
  parsed_candidate candidate = elim (tools.datetime_fromisoformat candidate) [
    | some t ↦ some t
    | none ↦ elim (tools.strptime candidate "%Y-%m-%d %H:%M:%S") [
      | some t ↦ some t
      | none ↦ tools.strptime candidate "%Y-%m-%d"
    ]
  ]

  unfoldable pub parse_received : String → Option ℕ
  unfolding ends_with
  parse_received value =
      let candidate = tools.strip value in
      if value == ""
      then none
      else if candidate == ""
      then none
      else parsed_candidate (
          if ends_with candidate "Z"
          then Prim.Native.String.◌++◌ (tools.drop_last candidate) "+00:00"
          else candidate)

  unfoldable pub is_sent_message : MessageMeta → Bool
  is_sent_message m =
      contains (tools.lower (tools.strip (or_empty m.folder)))
        ("sent" ∷ "sentitems" ∷ "sent items" ∷ "sentitemsfolder" ∷ [])

  unfoldable pub has_pdf : List AttachmentMeta → Bool
  unfolding has_part ends_with
  has_pdf [] = false
  has_pdf (a ∷ rest) =
      (has_part (tools.lower a.content_type) "pdf" || ends_with (tools.lower a.name) ".pdf")
      || has_pdf rest

  -- `message_has_pdf_attachment`, where the message has attachments at all.
  unfoldable pub message_has_pdf_attachment : MailAdapter → MessageMeta → Bool
  message_has_pdf_attachment adapter m = m.has_attachments && has_pdf (adapter.attachments m)

  abbrev in_window : ℕ → ℕ → Option ℕ → Bool
  in_window start end none = false
  in_window start end (some t) = leb start t && ltb t end

  -- The conditions of the loop's body.
  unfoldable pub is_matched : MailAdapter → FetchConfig → ℕ → ℕ → MessageMeta → Bool
  is_matched adapter config start end m =
      in_window start end (parse_received m.received)
      && (not (config.exclude_sent && is_sent_message m)
          && (message_has_pdf_attachment adapter m
              || should_consider_message tools.lower m.subject m.preview))

  -- `_parse_received(msg.received) or start`
  abbrev pub sort_key : ℕ → MessageMeta → ℕ
  sort_key start m = elim (parse_received m.received) [ none ↦ start | some t ↦ t ]

  abbrev pub matched_messages : MailAdapter → FetchConfig → ℕ → ℕ → List MessageMeta
  matched_messages adapter config start end =
      filter (is_matched adapter config start end) adapter.messages

  abbrev pub newest_messages : MailAdapter → FetchConfig → ℕ → ℕ → List MessageMeta
  newest_messages adapter config start end =
      let sorted = newest_first (sort_key start) (matched_messages adapter config start end) in
      if eqb config.max_messages 0 then sorted else take_messages config.max_messages sorted

  -- `none` is the ValueError of a bound that is no date.
  unfoldable pub fetch_invoices : MailAdapter → FetchConfig → Option (List MessageMeta)
  unfolding newest_first take_messages is_matched
  fetch_invoices adapter config = elim (tools.date_fromisoformat config.start_date) [
    | none ↦ none
    | some start ↦ elim (tools.date_fromisoformat config.end_date) [
      | none ↦ none
      | some end ↦ some (newest_messages adapter config start end)
    ]
  ]
