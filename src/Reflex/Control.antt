-- ===== src/Reflex/Control.antt =====
-- protocol/reflex/control.rs: the CPUID leaves and register values that are commands of the Reflex
-- client, and `cpuid_argument` of protocol/reflex/state.rs, which picks the register of a payload.
use linuwux_runtime.Base.{ℕ, List, [], ◌∷◌, ◌==◌, if◌then◌else◌}

abbrev pub arm_target_cr3 : ℕ
arm_target_cr3 = 0x6969_6969

abbrev pub register_resume_handler : ℕ
register_resume_handler = 0x0033_6933

abbrev pub set_time : ℕ
set_time = 0x0033_6967

abbrev pub register_system_syscall_id : ℕ
register_system_syscall_id = 0x0033_6943

abbrev pub register_attributes_handler : ℕ
register_attributes_handler = 0x0033_6934

abbrev pub register_attributes_syscall_id : ℕ
register_attributes_syscall_id = 0x0033_6944

abbrev pub client_session_marker : ℕ
client_session_marker = 0x0069_3369

abbrev pub register_target_pid : ℕ
register_target_pid = 0x1337

abbrev pub single_dispatch_selectors : List ℕ
single_dispatch_selectors = 0x1337_1337 ∷ 0x1337_1338 ∷ []

abbrev pub user_rcx_max : ℕ
user_rcx_max = 0x7fff_ffff_ffff

abbrev pub dispatch_bypass_syscall : ℕ
dispatch_bypass_syscall = 0x7fff_ffff_ffff

abbrev pub transition_wait_limit : ℕ
transition_wait_limit = 4096

unfoldable pub cpuid_argument : ℕ → ℕ → ℕ → ℕ
cpuid_argument leaf rcx rdx = if leaf == register_target_pid then rdx else rcx
