-- ===== src/Seccomp/Own.antt =====
-- src/syscall/seccomp.c: the system calls that the program itself wants to see.
use improot.Base.{ℕ, List, [], ◌∷◌}
use improot.Sysnum.{Sysnum}
use improot.Seccomp.{FilteredSysnum}

-- `FILTER_SYSEXIT`
abbrev pub filter_sysexit : ℕ
filter_sysexit = 1

abbrev pub filtered : Sysnum → ℕ → FilteredSysnum
filtered value flags = record { value = value; flags = flags }

-- The neutral numbers, as src/syscall/sysnums.list counts them.
abbrev pr_accept : Sysnum
pr_accept = 11

abbrev pr_accept4 : Sysnum
pr_accept4 = 12

abbrev pr_access : Sysnum
pr_access = 13

abbrev pr_acct : Sysnum
pr_acct = 14

abbrev pr_bind : Sysnum
pr_bind = 24

abbrev pr_brk : Sysnum
pr_brk = 27

abbrev pr_chdir : Sysnum
pr_chdir = 31

abbrev pr_chmod : Sysnum
pr_chmod = 32

abbrev pr_chown : Sysnum
pr_chown = 33

abbrev pr_chown32 : Sysnum
pr_chown32 = 34

abbrev pr_chroot : Sysnum
pr_chroot = 35

abbrev pr_clone : Sysnum
pr_clone = 41

abbrev pr_clone3 : Sysnum
pr_clone3 = 42

abbrev pr_connect : Sysnum
pr_connect = 44

abbrev pr_creat : Sysnum
pr_creat = 46

abbrev pr_recvfrom : Sysnum
pr_recvfrom = 264

abbrev pr_recvmsg : Sysnum
pr_recvmsg = 266

abbrev pr_sendmsg : Sysnum
pr_sendmsg = 306

abbrev pr_sendto : Sysnum
pr_sendto = 307

abbrev pr_socket : Sysnum
pr_socket = 356

abbrev pr_execve : Sysnum
pr_execve = 61

abbrev pr_execveat : Sysnum
pr_execveat = 62

abbrev pr_faccessat : Sysnum
pr_faccessat = 65

abbrev pr_faccessat2 : Sysnum
pr_faccessat2 = 66

abbrev pr_fchdir : Sysnum
pr_fchdir = 72

abbrev pr_fchmodat : Sysnum
pr_fchmodat = 74

abbrev pr_fchownat : Sysnum
pr_fchownat = 77

abbrev pr_fstatat64 : Sysnum
pr_fstatat64 = 90

abbrev pr_futimesat : Sysnum
pr_futimesat = 98

abbrev pr_getcwd : Sysnum
pr_getcwd = 104

abbrev pr_getpeername : Sysnum
pr_getpeername = 116

abbrev pr_getsockname : Sysnum
pr_getsockname = 131

abbrev pr_getxattr : Sysnum
pr_getxattr = 137

abbrev pr_inotify_add_watch : Sysnum
pr_inotify_add_watch = 141

abbrev pr_lchown : Sysnum
pr_lchown = 161

abbrev pr_lchown32 : Sysnum
pr_lchown32 = 162

abbrev pr_lgetxattr : Sysnum
pr_lgetxattr = 163

abbrev pr_link : Sysnum
pr_link = 164

abbrev pr_linkat : Sysnum
pr_linkat = 165

abbrev pr_listxattr : Sysnum
pr_listxattr = 167

abbrev pr_llistxattr : Sysnum
pr_llistxattr = 168

abbrev pr_lremovexattr : Sysnum
pr_lremovexattr = 171

abbrev pr_lsetxattr : Sysnum
pr_lsetxattr = 173

abbrev pr_lstat : Sysnum
pr_lstat = 174

abbrev pr_lstat64 : Sysnum
pr_lstat64 = 175

abbrev pr_mkdir : Sysnum
pr_mkdir = 182

abbrev pr_mkdirat : Sysnum
pr_mkdirat = 183

abbrev pr_mknod : Sysnum
pr_mknod = 184

abbrev pr_mknodat : Sysnum
pr_mknodat = 185

abbrev pr_mount : Sysnum
pr_mount = 192

abbrev pr_name_to_handle_at : Sysnum
pr_name_to_handle_at = 211

abbrev pr_newfstatat : Sysnum
pr_newfstatat = 213

abbrev pr_oldlstat : Sysnum
pr_oldlstat = 217

abbrev pr_oldstat : Sysnum
pr_oldstat = 219

abbrev pr_open : Sysnum
pr_open = 221

abbrev pr_openat : Sysnum
pr_openat = 223

abbrev pr_openat2 : Sysnum
pr_openat2 = 224

abbrev pr_pivot_root : Sysnum
pr_pivot_root = 233

abbrev pr_prctl : Sysnum
pr_prctl = 239

abbrev pr_prlimit64 : Sysnum
pr_prlimit64 = 243

abbrev pr_ptrace : Sysnum
pr_ptrace = 249

abbrev pr_readlink : Sysnum
pr_readlink = 259

abbrev pr_readlinkat : Sysnum
pr_readlinkat = 260

abbrev pr_removexattr : Sysnum
pr_removexattr = 268

abbrev pr_rename : Sysnum
pr_rename = 269

abbrev pr_renameat : Sysnum
pr_renameat = 270

abbrev pr_renameat2 : Sysnum
pr_renameat2 = 271

abbrev pr_rmdir : Sysnum
pr_rmdir = 274

abbrev pr_setrlimit : Sysnum
pr_setrlimit = 334

abbrev pr_setxattr : Sysnum
pr_setxattr = 340

abbrev pr_socketcall : Sysnum
pr_socketcall = 357

abbrev pr_stat : Sysnum
pr_stat = 361

abbrev pr_stat64 : Sysnum
pr_stat64 = 362

abbrev pr_statfs : Sysnum
pr_statfs = 363

abbrev pr_statfs64 : Sysnum
pr_statfs64 = 364

abbrev pr_statx : Sysnum
pr_statx = 365

abbrev pr_swapoff : Sysnum
pr_swapoff = 368

abbrev pr_swapon : Sysnum
pr_swapon = 369

abbrev pr_symlink : Sysnum
pr_symlink = 370

abbrev pr_symlinkat : Sysnum
pr_symlinkat = 371

abbrev pr_truncate : Sysnum
pr_truncate = 392

abbrev pr_truncate64 : Sysnum
pr_truncate64 = 393

abbrev pr_umount : Sysnum
pr_umount = 398

abbrev pr_umount2 : Sysnum
pr_umount2 = 399

abbrev pr_uname : Sysnum
pr_uname = 400

abbrev pr_unshare : Sysnum
pr_unshare = 403

abbrev pr_setns : Sysnum
pr_setns = 323

abbrev pr_unlink : Sysnum
pr_unlink = 401

abbrev pr_unlinkat : Sysnum
pr_unlinkat = 402

abbrev pr_uselib : Sysnum
pr_uselib = 404

abbrev pr_utime : Sysnum
pr_utime = 407

abbrev pr_utimensat : Sysnum
pr_utimensat = 408

abbrev pr_utimes : Sysnum
pr_utimes = 409

abbrev pr_wait4 : Sysnum
pr_wait4 = 416

abbrev pr_waitpid : Sysnum
pr_waitpid = 418

-- `proot_sysnums`, but for the two that are there on Android only.
unfoldable pub proot_sysnums : List FilteredSysnum
proot_sysnums =
    filtered pr_accept filter_sysexit
    ∷ filtered pr_accept4 filter_sysexit
    ∷ filtered pr_access 0
    ∷ filtered pr_acct 0
    ∷ filtered pr_bind 0
    ∷ filtered pr_brk filter_sysexit
    ∷ filtered pr_chdir filter_sysexit
    ∷ filtered pr_chmod 0
    ∷ filtered pr_chown 0
    ∷ filtered pr_chown32 0
    ∷ filtered pr_chroot 0
    ∷ filtered pr_clone 0
    ∷ filtered pr_clone3 0
    ∷ filtered pr_connect 0
    ∷ filtered pr_creat 0
    ∷ filtered pr_recvfrom 0
    ∷ filtered pr_recvmsg 0
    ∷ filtered pr_sendmsg 0
    ∷ filtered pr_sendto 0
    ∷ filtered pr_socket filter_sysexit
    ∷ filtered pr_execve filter_sysexit
    ∷ filtered pr_execveat filter_sysexit
    ∷ filtered pr_faccessat 0
    ∷ filtered pr_faccessat2 filter_sysexit
    ∷ filtered pr_fchdir filter_sysexit
    ∷ filtered pr_fchmodat 0
    ∷ filtered pr_fchownat 0
    ∷ filtered pr_fstatat64 0
    ∷ filtered pr_futimesat 0
    ∷ filtered pr_getcwd filter_sysexit
    ∷ filtered pr_getpeername filter_sysexit
    ∷ filtered pr_getsockname filter_sysexit
    ∷ filtered pr_getxattr 0
    ∷ filtered pr_inotify_add_watch 0
    ∷ filtered pr_lchown 0
    ∷ filtered pr_lchown32 0
    ∷ filtered pr_lgetxattr 0
    ∷ filtered pr_link 0
    ∷ filtered pr_linkat 0
    ∷ filtered pr_listxattr 0
    ∷ filtered pr_llistxattr 0
    ∷ filtered pr_lremovexattr 0
    ∷ filtered pr_lsetxattr 0
    ∷ filtered pr_lstat 0
    ∷ filtered pr_lstat64 0
    ∷ filtered pr_mkdir 0
    ∷ filtered pr_mkdirat 0
    ∷ filtered pr_mknod 0
    ∷ filtered pr_mknodat 0
    ∷ filtered pr_mount filter_sysexit
    ∷ filtered pr_name_to_handle_at 0
    ∷ filtered pr_newfstatat 0
    ∷ filtered pr_oldlstat 0
    ∷ filtered pr_oldstat 0
    ∷ filtered pr_open 0
    ∷ filtered pr_openat 0
    ∷ filtered pr_openat2 0
    ∷ filtered pr_pivot_root filter_sysexit
    ∷ filtered pr_prctl 0
    ∷ filtered pr_prlimit64 filter_sysexit
    ∷ filtered pr_ptrace filter_sysexit
    ∷ filtered pr_readlink filter_sysexit
    ∷ filtered pr_readlinkat filter_sysexit
    ∷ filtered pr_removexattr 0
    ∷ filtered pr_rename filter_sysexit
    ∷ filtered pr_renameat filter_sysexit
    ∷ filtered pr_renameat2 filter_sysexit
    ∷ filtered pr_rmdir 0
    ∷ filtered pr_setrlimit filter_sysexit
    ∷ filtered pr_setxattr 0
    ∷ filtered pr_socketcall filter_sysexit
    ∷ filtered pr_stat 0
    ∷ filtered pr_stat64 0
    ∷ filtered pr_statfs filter_sysexit
    ∷ filtered pr_statfs64 filter_sysexit
    ∷ filtered pr_statx filter_sysexit
    ∷ filtered pr_swapoff 0
    ∷ filtered pr_swapon 0
    ∷ filtered pr_symlink 0
    ∷ filtered pr_symlinkat 0
    ∷ filtered pr_truncate 0
    ∷ filtered pr_truncate64 0
    ∷ filtered pr_umount filter_sysexit
    ∷ filtered pr_umount2 filter_sysexit
    ∷ filtered pr_uname filter_sysexit
    ∷ filtered pr_unshare filter_sysexit
    ∷ filtered pr_setns filter_sysexit
    ∷ filtered pr_unlink 0
    ∷ filtered pr_unlinkat 0
    ∷ filtered pr_uselib 0
    ∷ filtered pr_utime filter_sysexit
    ∷ filtered pr_utimensat 0
    ∷ filtered pr_utimes 0
    ∷ filtered pr_wait4 filter_sysexit
    ∷ filtered pr_waitpid filter_sysexit
    ∷ []
