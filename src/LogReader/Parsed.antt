-- ===== src/LogReader/Parsed.antt =====
-- 17_log_reader/main.c: a line in the combined log format is read as it was written.
use otus_c_prog.Common.{ℕ, ◌==◌, ◌≡◌, sym, true, false, List, [], ◌∷◌, ◌++◌, some, arith}
use mathlib.Core.Bool.{true≢false}
use otus_c_prog.LogReader.Text.{
  strchr, skip_spaces, starts_digit, free_of, strchr-skip, before-++, skip_spaces-digit,
  starts_digit-++, strchr-++,
}
use otus_c_prog.LogReader.Line.{Parsed, Mallocs, size_of, parse_size, parse_status, parse_log_line}

-- The fields of a line: `user` is all before the date's bracket, `date` all before the request.
pub record Fields : Type 0 where
  pub ip : List ℕ
  pub ident : List ℕ
  pub user : List ℕ
  pub date : List ℕ
  pub method : List ℕ
  pub uri : List ℕ
  pub version : List ℕ
  pub status : List ℕ
  pub size : List ℕ
  pub referer : List ℕ
  pub rest : List ℕ

-- A field with the character behind it.
abbrev pub ended : List ℕ → ℕ → List ℕ → List ℕ
ended a c s = a ++ c ∷ s

pub from_size : Fields → List ℕ
from_size l = ended l.size 32 (34 ∷ ended l.referer 34 l.rest)

pub from_status : Fields → List ℕ
from_status l = ended l.status 32 (from_size l)

pub from_method : Fields → List ℕ
from_method l = ended l.method 32 (ended l.uri 32 (ended l.version 34 (32 ∷ from_status l)))

pub line_of : Fields → List ℕ
line_of l = ended l.ip 32 (ended l.ident 32 (ended l.user 91 (ended l.date 34 (from_method l))))

-- No field has the character that ends it, and the status and the size begin with a digit.
pub record WellFormed (l : Fields) : Type 0 where
  pub ip_free : free_of 32 l.ip ≡ true
  pub ident_free : free_of 32 l.ident ≡ true
  pub user_free : free_of 91 l.user ≡ true
  pub date_free : free_of 34 l.date ≡ true
  pub method_free : free_of 32 l.method ≡ true
  pub uri_free : free_of 32 l.uri ≡ true
  pub version_free : free_of 34 l.version ≡ true
  pub status_free : free_of 32 l.status ≡ true
  pub status_digit : starts_digit l.status ≡ true
  pub size_free : free_of 34 l.size ≡ true
  pub size_digit : starts_digit l.size ≡ true
  pub referer_free : free_of 34 l.referer ≡ true

module _ (atoll : List ℕ → ℕ) where
  size_of-digit : (a s : List ℕ) → starts_digit a ≡ true → size_of atoll (a ++ s) ≡ atoll (a ++ s)
  unfolding size_of starts_digit
  size_of-digit [] s h = absurd (true≢false (sym h))
  size_of-digit (x ∷ a) s h = let ne : (x == 45) ≡ false = ground arith in rw ne

  module _ (memory : Mallocs) (l : Fields) (ok : WellFormed l) where
    parsed : Parsed
    parsed = record { url = l.uri; bytes = atoll (from_size l); referer = l.referer }

    quoted : strchr (from_size l) 34 ≡ some (34 ∷ ended l.referer 34 l.rest)
    unfolding strchr from_size
    quoted = strchr-skip l.size 34 (32 ∷ 34 ∷ ended l.referer 34 l.rest) ok.size_free

    size_eq : size_of atoll (from_size l) ≡ atoll (from_size l)
    unfolding from_size
    size_eq = size_of-digit l.size (32 ∷ 34 ∷ ended l.referer 34 l.rest) ok.size_digit

    parse_size-lem :
        memory.for_url ≡ true
        → memory.for_referer ≡ true
        → parse_size atoll memory l.uri (from_size l) ≡ some parsed
    unfolding parse_size parsed
    parse_size-lem m₁ m₂ = rw (
      quoted,
      strchr-++ l.referer 34 l.rest ok.referer_free,
      m₁,
      m₂,
      size_eq,
      before-++ l.referer 34 l.rest ok.referer_free,
    )

    skip_status : skip_spaces (32 ∷ from_status l) ≡ from_status l
    unfolding skip_spaces from_status
    skip_status = skip_spaces-digit l.status (32 ∷ from_size l) ok.status_digit

    skip_size : skip_spaces (from_size l) ≡ from_size l
    unfolding from_size
    skip_size = skip_spaces-digit l.size (32 ∷ 34 ∷ ended l.referer 34 l.rest) ok.size_digit

    status_starts : starts_digit (from_status l) ≡ true
    unfolding from_status
    status_starts = starts_digit-++ l.status (32 ∷ from_size l) ok.status_digit

    status_ends : strchr (from_status l) 32 ≡ some (32 ∷ from_size l)
    unfolding from_status
    status_ends = strchr-++ l.status 32 (from_size l) ok.status_free

    parse_status-lem :
        memory.for_url ≡ true
        → memory.for_referer ≡ true
        → parse_status atoll memory l.uri (from_status l) ≡ some parsed
    unfolding parse_status
    parse_status-lem m₁ m₂ = rw (status_starts, status_ends, skip_size) (parse_size-lem m₁ m₂)

    abbrev after_uri : List ℕ
    after_uri = ended l.version 34 (32 ∷ from_status l)

    abbrev after_method : List ℕ
    after_method = ended l.uri 32 after_uri

    abbrev after_user : List ℕ
    after_user = ended l.date 34 (from_method l)

    method_ends : strchr (from_method l) 32 ≡ some (32 ∷ after_method)
    unfolding from_method
    method_ends = strchr-++ l.method 32 after_method ok.method_free

    version_ends : strchr (32 ∷ after_uri) 34 ≡ some (34 ∷ 32 ∷ from_status l)
    unfolding strchr
    version_ends = strchr-++ l.version 34 (32 ∷ from_status l) ok.version_free

    date_ends : strchr (91 ∷ after_user) 34 ≡ some (34 ∷ from_method l)
    unfolding strchr
    date_ends = strchr-++ l.date 34 (from_method l) ok.date_free

    -- parse_log_line, when it has memory for its strings, reads back the URI, the size and the referer
    -- of a line in the combined log format whose status and size begin with a digit and whose fields
    -- do not have the character that ends them; the number is what atoll reads at the size.
    pub parse_log_line-line_of :
        memory.for_url ≡ true
        → memory.for_referer ≡ true
        → parse_log_line atoll memory (line_of l)
          ≡ some (record { url = l.uri; bytes = atoll (from_size l); referer = l.referer })
    unfolding parse_log_line line_of parsed
    parse_log_line-line_of m₁ m₂ =
        rw
          (
            strchr-++ l.ip 32 (ended l.ident 32 (ended l.user 91 after_user)) ok.ip_free,
            strchr-++ l.ident 32 (ended l.user 91 after_user) ok.ident_free,
            strchr-++ l.user 91 after_user ok.user_free,
            date_ends,
            method_ends,
            strchr-++ l.uri 32 after_uri ok.uri_free,
            before-++ l.uri 32 after_uri ok.uri_free,
            version_ends,
            skip_status,
          )
          (parse_status-lem m₁ m₂)
