-- ===== src/Examples/Mailbox.antt =====
-- Three messages, two of them taken.
use invoices_codex.Prelude.{
  String, refl, true, false, none, some, [], ◌∷◌, filter, ◌==◌, if◌then◌else◌,
}
use invoices_codex.Mail.Relevance.{
  has_part, has_any, is_municipal_text, body_has_negative, body_has_positive,
  should_consider_message,
}
use invoices_codex.Mail.Fetch.{
  MessageMeta, MailAdapter, FetchConfig, MailTools, insert_newest, newest_first, take_messages,
  ends_with, parse_received, is_sent_message, has_pdf, message_has_pdf_attachment, is_matched,
  fetch_invoices,
}
use invoices_codex.Mail.Fetch.Newest.{Fetched, fetch_invoices-Fetched}

abbrev mail_tools : MailTools
mail_tools = record {
  strip = λ t. t;
  lower = λ t. t;
  date_fromisoformat = λ t. if t == "first" then some 10 else some 20;
  drop_last = λ t. t;
  datetime_fromisoformat =
      λ t. if t == "day 12" then some 12 else if t == "day 15" then some 15 else none;
  strptime = λ t format. none;
}

abbrev message : String → String → String → MessageMeta
message id subject received = record {
  id = id;
  subject = subject;
  sender = "a@b.c";
  received = received;
  web_link = none;
  preview = "";
  has_attachments = false;
  folder = none;
}

abbrev adapter : MailAdapter
adapter = record {
  messages =
      message "m1" "your invoice" "day 12"
      ∷ message "m2" "salary invoice" "day 15"
      ∷ message "m3" "receipt" "day 15"
      ∷ [];
  attachments = λ m. [];
}

abbrev config : FetchConfig
config = record {
  start_date = "first";
  end_date = "last";
  verify = false;
  exclude_sent = true;
  max_messages = 1;
}

fetch_invoices-Fetched_example :
    Fetched mail_tools adapter config 10 20 (message "m3" "receipt" "day 15" ∷ [])
unfolding fetch_invoices newest_first insert_newest take_messages is_matched parse_received
    ends_with is_sent_message has_pdf message_has_pdf_attachment should_consider_message has_part
    has_any body_has_negative body_has_positive is_municipal_text filter
fetch_invoices-Fetched_example =
    fetch_invoices-Fetched mail_tools adapter config 10 20 (message "m3" "receipt" "day 15" ∷ [])
      refl refl refl
