-- ===== src/Constants.antt =====
-- usr/lib/smd/lib/constants/__init__.py, defaults.py and config.py: the numbers and names that the
-- modelled modules share, with the values that the files give (an installation may override some).
use spaceport.Base.{ℕ, String, Bool, true, [], ◌∷◌}
use spaceport.Base.Dict.{Dict}

-- The headers of messages.
abbrev pub hook_ok : ℕ
hook_ok = 0xC8

abbrev pub hook_log : ℕ
hook_log = 0xF0

abbrev pub hook_error : ℕ
hook_error = 0xFF

abbrev pub hook_reload : ℕ
hook_reload = 0xF5

abbrev pub hook_daemon : ℕ
hook_daemon = 0x00

abbrev pub hook_startup : ℕ
hook_startup = 0x01

abbrev pub hook_shutdown : ℕ
hook_shutdown = 0xFA

abbrev pub hook_lock : ℕ
hook_lock = 0xA0

abbrev pub hook_locker : ℕ
hook_locker = 0xA6

abbrev pub hook_power : ℕ
hook_power = 0xA1

abbrev pub hook_monitor : ℕ
hook_monitor = 0xA3

abbrev pub hook_suspend : ℕ
hook_suspend = 0xC0

abbrev pub hook_hibernate : ℕ
hook_hibernate = 0xC1

abbrev pub hook_backup : ℕ
hook_backup = 0xBA

abbrev pub hook_background : ℕ
hook_background = 0xBF

abbrev pub hook_notification : ℕ
hook_notification = 0xB2

abbrev pub hook_radio : ℕ
hook_radio = 0xA5

abbrev pub hook_display : ℕ
hook_display = 0xA8

-- The `type` of a message.
abbrev pub msg_pre : ℕ
msg_pre = 0x00

abbrev pub msg_post : ℕ
msg_post = 0x01

abbrev pub msg_status : ℕ
msg_status = 0x02

abbrev pub msg_action : ℕ
msg_action = 0x03

abbrev pub msg_config : ℕ
msg_config = 0x04

abbrev pub msg_update : ℕ
msg_update = 0x05

abbrev pub msg_user : ℕ
msg_user = 0x06

-- The `trigger` of a lock message.
abbrev pub trigger_lock : ℕ
trigger_lock = 0x0

abbrev pub trigger_blank : ℕ
trigger_blank = 0x1

abbrev pub trigger_timeout : ℕ
trigger_timeout = 0x2

abbrev pub trigger_key : ℕ
trigger_key = 0x3

abbrev pub locker_time_blank : ℕ
locker_time_blank = 7

abbrev pub locker_time_backoff : ℕ
locker_time_backoff = 5

-- `LOCKER_TYPE_NAMES`, with the names that are shown.
abbrev pub locker_type_names : Dict String
locker_type_names =
    ("key", "Yubikey")
    ∷ ("lid", "Lid Close")
    ∷ ("lock", "Lockscreen")
    ∷ ("blank", "Screen Blank")
    ∷ ("backup", "Active Backup")
    ∷ ("freeze", "No App Freeze")
    ∷ ("suspend", "Suspend")
    ∷ ("hibernate", "Hibernate")
    ∷ []

-- `HOOK_TRANSLATIONS`
abbrev pub hook_translations : Dict ℕ
hook_translations =
    ("ok", hook_ok)
    ∷ ("log", hook_log)
    ∷ ("lock", hook_lock)
    ∷ ("power", hook_power)
    ∷ ("notify", hook_notification)
    ∷ ("backup", hook_backup)
    ∷ ("reload", hook_reload)
    ∷ ("monitor", hook_monitor)
    ∷ ("suspend", hook_suspend)
    ∷ ("hibernate", hook_hibernate)
    ∷ ("background", hook_background)
    ∷ []

abbrev pub default_locker_lid : Bool
default_locker_lid = true

abbrev pub default_locker_key_lock : Bool
default_locker_key_lock = true

abbrev pub default_locker_lock : ℕ
default_locker_lock = 120

abbrev pub default_locker_blank : ℕ
default_locker_blank = 60

abbrev pub default_locker_suspend : ℕ
default_locker_suspend = 120

abbrev pub default_locker_hibernate : ℕ
default_locker_hibernate = 300
