-- ===== src/Config/Declared.antt =====
-- src/Config.h: the settings of the platform and of a session, in the order of their declarations.
use openfix.Prelude.{ℕ, ◌+◌, ◌-◌, Bool, true, false, List, [], ◌∷◌, Bytes, codes, long_zero}
use openfix.Config.{Defaults, create_string, create_long, create_bool, create_double}
use openfix.Config.Typed.{Registered, a_string, a_long, a_bool, a_double}

-- A declaration by createString and its like.
pub data Declaration (D : Type 0) : Type 0 where
  string_setting : Bytes → Bytes → Declaration D
  long_setting : Bytes → ℕ → Declaration D
  bool_setting : Bytes → Bool → Declaration D
  double_setting : Bytes → D → Declaration D

unfoldable pub declare : {D : Type 0} → List (Declaration D) → Defaults D → Defaults D
unfolding create_string create_long create_bool create_double
declare [] d = d
declare (string_setting name value ∷ more) d = declare more (create_string name value d).0
declare (long_setting name value ∷ more) d = declare more (create_long name value d).0
declare (bool_setting name value ∷ more) d = declare more (create_bool name value d).0
declare (double_setting name value ∷ more) d = declare more (create_double name value d).0

pub declare-Registered :
    {D : Type 0} (declarations : List (Declaration D)) (d : Defaults D)
    → Registered d
    → Registered (declare declarations d)
unfolding declare
declare-Registered [] d r = r
declare-Registered (string_setting name value ∷ more) d r =
    declare-Registered more (create_string name value d).0 (a_string name value r)
declare-Registered (long_setting name value ∷ more) d r =
    declare-Registered more (create_long name value d).0 (a_long name value r)
declare-Registered (bool_setting name value ∷ more) d r =
    declare-Registered more (create_bool name value d).0 (a_bool name value r)
declare-Registered (double_setting name value ∷ more) d r =
    declare-Registered more (create_double name value d).0 (a_double name value r)

-- struct PlatformSettings
abbrev pub platform_settings : {D : Type 0} → List (Declaration D)
platform_settings =
    long_setting (codes "InputThreads") (long_zero + 1)
    ∷ long_setting (codes "SocketSendBufSize") long_zero
    ∷ long_setting (codes "SocketRecvBufSize") long_zero
    ∷ long_setting (codes "UpdateDelay") (long_zero + 1000)
    ∷ long_setting (codes "EpollTimeout") (long_zero + 1000)
    ∷ string_setting (codes "LogPath") (codes "./log")
    ∷ string_setting (codes "DataPath") (codes "./data")
    ∷ long_setting (codes "AdminWebsitePort") (long_zero + 51234)
    ∷ string_setting (codes "CpuCores") []
    ∷ bool_setting (codes "CpuAvoidHT") false
    ∷ long_setting (codes "CpuNumaNode") (long_zero - 1)
    ∷ []

-- struct SessionSettings; `two` is the double 2.0.
abbrev pub session_settings : {D : Type 0} → D → List (Declaration D)
session_settings two =
    string_setting (codes "BeginString") []
    ∷ string_setting (codes "SenderCompID") []
    ∷ string_setting (codes "TargetCompID") []
    ∷ bool_setting (codes "TestSession") false
    ∷ bool_setting (codes "SendNextExpectedMsgSeqNum") true
    ∷ bool_setting (codes "ResetSeqNumOnLogon") false
    ∷ bool_setting (codes "AllowResetSeqNumFlag") false
    ∷ bool_setting (codes "TCPQuickAck") true
    ∷ bool_setting (codes "TCPNoDelay") true
    ∷ string_setting (codes "FIXDictionary") []
    ∷ bool_setting (codes "RelaxedParsing") false
    ∷ bool_setting (codes "LoudParsing") true
    ∷ bool_setting (codes "ValidateRequiredFields") false
    ∷ bool_setting (codes "ParsingReorderTags") false
    ∷ string_setting (codes "StartTime") (codes "00:00:00")
    ∷ string_setting (codes "StopTime") (codes "00:00:00")
    ∷ long_setting (codes "AcceptPort") long_zero
    ∷ string_setting (codes "ConnectHost") []
    ∷ long_setting (codes "ConnectPort") long_zero
    ∷ bool_setting (codes "TLSEnabled") false
    ∷ bool_setting (codes "TLSVerifyPeer") true
    ∷ bool_setting (codes "TLSRequireClientCert") false
    ∷ string_setting (codes "TLSCAFile") []
    ∷ string_setting (codes "TLSCertFile") []
    ∷ string_setting (codes "TLSKeyFile") []
    ∷ string_setting (codes "TLSServerName") []
    ∷ long_setting (codes "ConnectTimeout") (long_zero + 5000)
    ∷ long_setting (codes "HeartbeatInterval") (long_zero + 10)
    ∷ long_setting (codes "LogonInterval") (long_zero + 10)
    ∷ long_setting (codes "ReconnectInterval") (long_zero + 10)
    ∷ double_setting (codes "TestRequestThreshold") two
    ∷ long_setting (codes "SendingTimeThreshold") (long_zero + 10)
    ∷ string_setting (codes "SessionType") []
    ∷ []
