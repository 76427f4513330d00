-- ===== src/Ssdp/Message.antt =====
-- crates/ssdp-core/src/message: the parsed messages.
use rusty_castle.Prelude.{ℕ, Option}
use rusty_castle.Str.{Str}
use rusty_castle.Ssdp.Time.{Duration}
use rusty_castle.Ssdp.Header.Value.{Nts}
use rusty_castle.Ssdp.Header.Target.{TargetRef}
use rusty_castle.Ssdp.Header.Usn.{UsnRef}

pub record MSearchRef : Type 0 where
  pub host : Str
  pub st : TargetRef
  pub mx : ℕ
  pub user_agent : Option Str
  pub cpfn : Option Str
  pub cpuuid : Option Str
  pub tcpport : Option ℕ

pub record NotifyRef : Type 0 where
  pub host : Str
  pub nt : TargetRef
  pub nts : Nts
  pub usn : UsnRef
  pub location : Option Str
  pub max_age : Option Duration
  pub server : Option Str
  pub bootid : Option ℕ
  pub configid : Option ℕ
  pub nextbootid : Option ℕ
  pub searchport : Option ℕ

pub record SearchResponseRef : Type 0 where
  pub st : TargetRef
  pub usn : UsnRef
  pub location : Str
  pub max_age : Duration
  pub server : Option Str
  pub bootid : Option ℕ
  pub configid : Option ℕ
  pub searchport : Option ℕ

pub data MessageRef : Type 0 where
  search : MSearchRef → MessageRef
  search_response : SearchResponseRef → MessageRef
  notify : NotifyRef → MessageRef
