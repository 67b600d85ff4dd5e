-- ===== src/Cpu/Dispatch.antt =====
-- The handlers as functions: the values of opcodeTable.
pub mod Privilege
use m68kemu.Decode.Registration.{Handler}
use m68kemu.Cpu.State.{Run}
use m68kemu.Cpu.Arithmetic.{add, sub, addq, subq, addi, subi, adda, suba, neg_instruction, clr, tst}
use m68kemu.Cpu.Multiply.{divu, divs, mulu, muls}
use m68kemu.Cpu.Compare.{cmp_instruction, cmpa, cmpi, cmpm}
use m68kemu.Cpu.Extend.{addx, subx, negx}
use m68kemu.Cpu.Bcd.{abcd, sbcd, nbcd}
use m68kemu.Cpu.Logical.{
  and_instruction, or_instruction, eor_instruction, ori_immediate, andi_immediate, eori_immediate,
  not_instruction, bit_dynamic, bit_immediate,
}
use m68kemu.Cpu.Shift.{shift_rotate}
use m68kemu.Cpu.Control.{
  branch, dbcc, scc, jmp, move_to_usp, move_from_usp, link, unlk, chk, jsr, rts,
}
use m68kemu.Cpu.Move.{moveq, moveb, movew, movel, moveaw, moveal, movep, lea, pea}
use m68kemu.Cpu.Multiple.{movem_to_registers, movem_to_memory}
use m68kemu.Cpu.System.{
  movec68000, trapv, reset_instruction, stop, ori_to_ccr, ori_to_sr, andi_to_ccr, andi_to_sr,
  eori_to_ccr, eori_to_sr, move_from_sr, move_to_ccr, move_to_sr, rte, rtr, nop, swap, ext, exg,
  tas, illegal, trap,
}

-- The function that a handler's name stands for.
unfoldable pub handle : Handler → Run (Unit {0})
unfolding add sub adda suba addq subq addi subi divu divs mulu muls neg_instruction cmp_instruction
    cmpa cmpi cmpm addx subx negx abcd sbcd nbcd clr tst and_instruction or_instruction
    eor_instruction ori_immediate andi_immediate eori_immediate not_instruction bit_dynamic
    bit_immediate shift_rotate branch dbcc scc jmp link unlk move_to_usp move_from_usp chk jsr rts
    moveb movew movel moveaw moveal moveq movem_to_memory movem_to_registers movep lea pea swap ext
    tas exg illegal nop trapv reset_instruction stop movec68000 ori_to_ccr ori_to_sr andi_to_ccr
    andi_to_sr eori_to_ccr eori_to_sr move_from_sr move_to_ccr move_to_sr rte rtr trap
handle Handler.add = add
handle Handler.sub = sub
handle Handler.adda = adda
handle Handler.suba = suba
handle Handler.addq = addq
handle Handler.subq = subq
handle Handler.addi = addi
handle Handler.subi = subi
handle Handler.divu = divu
handle Handler.divs = divs
handle Handler.mulu = mulu
handle Handler.muls = muls
handle Handler.neg = neg_instruction
handle Handler.cmp = cmp_instruction
handle Handler.cmpa = cmpa
handle Handler.cmpi = cmpi
handle Handler.cmpm = cmpm
handle Handler.addx = addx
handle Handler.subx = subx
handle Handler.negx = negx
handle Handler.abcd = abcd
handle Handler.sbcd = sbcd
handle Handler.nbcd = nbcd
handle Handler.clr = clr
handle Handler.tst = tst
handle Handler.and = and_instruction
handle Handler.or = or_instruction
handle Handler.eor = eor_instruction
handle Handler.ori = ori_immediate
handle Handler.andi = andi_immediate
handle Handler.eori = eori_immediate
handle Handler.complement = not_instruction
handle Handler.bit_dynamic = bit_dynamic
handle Handler.bit_immediate = bit_immediate
handle Handler.shift_rotate = shift_rotate
handle Handler.branch = branch
handle Handler.dbcc = dbcc
handle Handler.scc = scc
handle Handler.jmp = jmp
handle Handler.link = link
handle Handler.unlk = unlk
handle Handler.move_to_usp = move_to_usp
handle Handler.move_from_usp = move_from_usp
handle Handler.chk = chk
handle Handler.jsr = jsr
handle Handler.rts = rts
handle Handler.moveb = moveb
handle Handler.movew = movew
handle Handler.movel = movel
handle Handler.moveaw = moveaw
handle Handler.moveal = moveal
handle Handler.moveq = moveq
handle Handler.movem_to_memory = movem_to_memory
handle Handler.movem_to_registers = movem_to_registers
handle Handler.movep = movep
handle Handler.lea = lea
handle Handler.pea = pea
handle Handler.swap = swap
handle Handler.ext = ext
handle Handler.tas = tas
handle Handler.exg = exg
handle Handler.illegal = illegal
handle Handler.nop = nop
handle Handler.trapv = trapv
handle Handler.reset = reset_instruction
handle Handler.stop = stop
handle Handler.movec = movec68000
handle Handler.ori_to_ccr = ori_to_ccr
handle Handler.ori_to_sr = ori_to_sr
handle Handler.andi_to_ccr = andi_to_ccr
handle Handler.andi_to_sr = andi_to_sr
handle Handler.eori_to_ccr = eori_to_ccr
handle Handler.eori_to_sr = eori_to_sr
handle Handler.move_from_sr = move_from_sr
handle Handler.move_to_ccr = move_to_ccr
handle Handler.move_to_sr = move_to_sr
handle Handler.rte = rte
handle Handler.rtr = rtr
handle Handler.trap = trap
