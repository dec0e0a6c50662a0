-- ===== src/Oidc/Keys.antt =====
-- internal/oidc/service.go: the RSA key of an application, generated once. Keys and their PEM text are
-- parameters; a call is the read without the lock and, where no key is found, the part under the lock.
pub mod Agreement
use graaa_golang_auth_api.Common.{
  ◌≡◌, refl, Bool, false, Option, none, some, List, Text, text_eq, is_empty, if◌then◌else◌, arith,
}
use graaa_golang_auth_api.Redis.Interface.{Reply, ok, nil, failed}
use graaa_golang_auth_api.Database.{
  Fate, served, refused, lost, first_where, first, update_where, written, write_reply,
}
use graaa_golang_auth_api.Database.Laws.{first_where-update_where, first_where-satisfies}
use graaa_golang_auth_api.Flow.{Verdict, accept, reject}

pub record KeyRow : Type 0 where
  pub id : Text
  pub oidc_rsa_private_key : Text

-- Private keys, as their PEM text and back.
pub record Pem : Type 1 where
  pub Key : Type 0
  pub parse : Text → Option Key
  pub print : Key → Text

pub record IsPem (p : Pem) : Type 0 where
  pub parse_print : (key : p.Key) → p.parse (p.print key) ≡ some key
  pub print_nonempty : (key : p.Key) → is_empty (p.print key) ≡ false

pub data KeyError : Type 0 where
  get_failed parse_failed save_failed : KeyError

abbrev pub of_app : Text → KeyRow → Bool
of_app app row = text_eq row.id app

-- The two reads: a key that is stored, an error, or none yet.
pub data Stored (K : Type 0) : Type 0 where
  present : K → Stored K
  broken : KeyError → Stored K
  missing : Stored K

module _ (p : Pem) where
  open p use {Key}

  abbrev pub parsed : Option Key → Stored Key
  parsed none = broken parse_failed
  parsed (some key) = present key

  abbrev pub of_row : Reply KeyRow → Stored Key
  of_row nil = broken get_failed
  of_row failed = broken get_failed
  of_row (ok row) =
      if is_empty row.oidc_rsa_private_key
      then missing
      else parsed (p.parse row.oidc_rsa_private_key)

  unfoldable pub stored_key : Fate → Text → List KeyRow → Stored Key
  stored_key fate app rows = of_row (first fate (of_app app) rows)

  -- SaveRSAPrivateKey
  unfoldable pub save_key : Fate → Text → Text → List KeyRow → List KeyRow
  save_key fate app pem rows =
      written fate rows
        (update_where (of_app app) (λ row. record row { oidc_rsa_private_key = pem }) rows)

  abbrev pub saved : Reply (Unit {0}) → Key → Verdict KeyError Key
  saved (ok u) key = accept key
  saved nil key = reject save_failed
  saved failed key = reject save_failed

  abbrev pub under_lock :
      Stored Key → Fate → Text → Key → List KeyRow → Verdict KeyError Key × List KeyRow
  under_lock (present key) save app fresh rows = (accept key, rows)
  under_lock (broken e) save app fresh rows = (reject e, rows)
  under_lock missing save app fresh rows =
      (saved (write_reply save) fresh, save_key save app (p.print fresh) rows)

  -- The part under the lock reads again.
  unfoldable pub create_key :
      Fate → Fate → Text → Key → List KeyRow → Verdict KeyError Key × List KeyRow
  create_key load save app fresh rows = under_lock (stored_key load app rows) save app fresh rows

  abbrev pub after_read :
      Stored Key → Fate → Fate → Text → Key → List KeyRow → Verdict KeyError Key × List KeyRow
  after_read (present key) load save app fresh rows = (accept key, rows)
  after_read (broken e) load save app fresh rows = (reject e, rows)
  after_read missing load save app fresh rows = create_key load save app fresh rows

  unfoldable pub get_or_create_rsa_key :
      Fate → Fate → Fate → Text → Key → List KeyRow → Verdict KeyError Key × List KeyRow
  get_or_create_rsa_key read load save app fresh rows =
      after_read (stored_key read app rows) load save app fresh rows
