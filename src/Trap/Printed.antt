-- ===== src/Trap/Printed.antt =====
-- trapname, print_regs and print_trapframe of kern/trap.c, as the calls of cprintf that they make.
use jos.Base.{
  ℕ, ◌+◌, ◌%◌, Bool, ◌&&◌, List, [], ◌∷◌, ◌++◌, get_or, ltb, leb, ◌==◌, if◌then◌else◌, codes, has,
}
use jos.Print.Format.{int_arg}
use jos.Print.Cprintf.Messages.{Message, text_arg}
use jos.Kernel.{PushRegs, Trapframe}

abbrev pub excnames : List (List ℕ)
excnames =
    codes "Divide error"
    ∷ codes "Debug"
    ∷ codes "Non-Maskable Interrupt"
    ∷ codes "Breakpoint"
    ∷ codes "Overflow"
    ∷ codes "BOUND Range Exceeded"
    ∷ codes "Invalid Opcode"
    ∷ codes "Device Not Available"
    ∷ codes "Double Fault"
    ∷ codes "Coprocessor Segment Overrun"
    ∷ codes "Invalid TSS"
    ∷ codes "Segment Not Present"
    ∷ codes "Stack Fault"
    ∷ codes "General Protection"
    ∷ codes "Page Fault"
    ∷ codes "(unknown trap)"
    ∷ codes "x87 FPU Floating-Point Error"
    ∷ codes "Alignment Check"
    ∷ codes "Machine-Check"
    ∷ codes "SIMD Floating-Point Exception"
    ∷ []

-- The comparison with the size of the table is unsigned.
unfoldable pub trapname : ℕ → List ℕ
trapname trapno =
    if ltb trapno 20
    then get_or excnames trapno []
    else if trapno == 48
    then codes "System call"
    else if leb 32 trapno && ltb trapno (32 + 16)
    then codes "Hardware Interrupt"
    else codes "(unknown trap)"

-- A call with one number, and one with a string.
abbrev pub word_line : List ℕ → ℕ → Message
word_line fmt w = record { fmt = fmt; args = int_arg w ∷ [] }

abbrev pub text_line : List ℕ → Message
text_line fmt = record { fmt = fmt; args = [] }

unfoldable pub print_regs : PushRegs → List Message
print_regs regs =
    word_line (codes "  edi  0x%08x\n") regs.reg_edi
    ∷ word_line (codes "  esi  0x%08x\n") regs.reg_esi
    ∷ word_line (codes "  ebp  0x%08x\n") regs.reg_ebp
    ∷ word_line (codes "  oesp 0x%08x\n") regs.reg_oesp
    ∷ word_line (codes "  ebx  0x%08x\n") regs.reg_ebx
    ∷ word_line (codes "  edx  0x%08x\n") regs.reg_edx
    ∷ word_line (codes "  ecx  0x%08x\n") regs.reg_ecx
    ∷ word_line (codes "  eax  0x%08x\n") regs.reg_eax
    ∷ []

-- The line on the error code.
abbrev pub error_line : ℕ → ℕ → Message
error_line trapno err =
    if trapno == 14
    then record {
      fmt = codes " [%s, %s, %s]\n";
      args =
          text_arg (if has err 4 then codes "user" else codes "kernel")
          ∷ text_arg (if has err 2 then codes "write" else codes "read")
          ∷ text_arg (if has err 1 then codes "protection" else codes "not-present")
          ∷ [];
    }
    else text_line (codes "\n")

-- `tf_addr` is the address of the frame, `is_last` whether it is `last_tf`, `cr2` that register.
unfoldable pub print_trapframe : ℕ → ℕ → Bool → ℕ → Trapframe → List Message
unfolding trapname print_regs
print_trapframe tf_addr cpunum is_last cr2 tf =
    record {
      fmt = codes "TRAP frame at %p from CPU %d\n";
      args = int_arg tf_addr ∷ int_arg cpunum ∷ [];
    }
    ∷ (print_regs tf.tf_regs
        ++ (word_line (codes "  es   0x----%04x\n") tf.tf_es
            ∷ word_line (codes "  ds   0x----%04x\n") tf.tf_ds
            ∷ record {
              fmt = codes "  trap 0x%08x %s\n";
              args = int_arg tf.tf_trapno ∷ text_arg (trapname tf.tf_trapno) ∷ [];
            }
            ∷ ((if is_last && (tf.tf_trapno == 14)
                  then word_line (codes "  cr2  0x%08x\n") cr2 ∷ []
                  else [])
                ++ (word_line (codes "  err  0x%08x") tf.tf_err
                    ∷ error_line tf.tf_trapno tf.tf_err
                    ∷ word_line (codes "  eip  0x%08x\n") tf.tf_eip
                    ∷ word_line (codes "  cs   0x----%04x\n") tf.tf_cs
                    ∷ word_line (codes "  flag 0x%08x\n") tf.tf_eflags
                    ∷ (if tf.tf_cs % 4 == 0
                        then []
                        else word_line (codes "  esp  0x%08x\n") tf.tf_esp
                          ∷ word_line (codes "  ss   0x----%04x\n") tf.tf_ss
                          ∷ [])))))
